-- ===== src/HostKeys/Trust.antt =====
-- Which keys rust-core/bedterm-ios/src/host_key_store.rs trusts.
use bed_term.Prelude.{
  ℕ, ◌<◌, ◌≡◌, refl, sym, ap, inl, inr, true, ◌&&◌, none, some, ◌∷◌, ◌++◌, arith, ◌==◌,
  if◌then◌else◌, Bool-cases,
}
use bed_term.Prelude.Text.{text_eq, text_eq_refl, text_eq→eq, Text}
use bed_term.Prelude.Decimal.{print_ℕ}
use bed_term.HostsStore.{lookup, without}
use bed_term.HostsStore.Lookup.{lookup-without}
use bed_term.ConnectForm.Address.{parse_u16, split_last}
use bed_term.ConnectForm.Address.Trim.{
  print_ℕ-IsDigit, parse_u16-print_ℕ, split_last-append, digits-Lacks,
}
use bed_term.HostKeys.{
  account, matches, mismatch, unknown, Items, load, save, delete, verdict_of, verify,
}

-- Two hosts with two ports have two accounts.
account-injective :
    (h k : Text) (p q : ℕ) → p < 65536 → q < 65536 → account h p ≡ account k q → (h ≡ k) × (p ≡ q)
unfolding account
account-injective h k p q hp hq e =
    let split : split_last b':' (h ++ (b':' ∷ print_ℕ p))
        ≡ split_last b':' (k ++ (b':' ∷ print_ℕ q)) =
      ap (split_last b':') e in
    let a = split_last-append b':' h (print_ℕ p) (digits-Lacks (print_ℕ p) (print_ℕ-IsDigit p)) in
    let b = split_last-append b':' k (print_ℕ q) (digits-Lacks (print_ℕ q) (print_ℕ-IsDigit q)) in
    let ports : parse_u16 (print_ℕ p) ≡ parse_u16 (print_ℕ q) = ap parse_u16 (cc (a, b, split)) in
    (cc (a, b, split), cc (ports, parse_u16-print_ℕ p hp, parse_u16-print_ℕ q hq))

load-delete :
    (items : Items) (h k : Text) (p q : ℕ)
    → load (delete items h p) k q
      ≡ (if text_eq (account k q) (account h p) then none else load items k q)
unfolding load delete
load-delete items h k p q = lookup-without (account h p) (account k q) items

lookup_first :
    (a b : Text) (f : Text) (items : Items)
    → lookup b ((a, f) ∷ without a items) ≡ (if text_eq b a then some f else lookup b items)
unfolding lookup
lookup_first a b f items = ground (arith, lookup-without a b items)

load-save :
    (items : Items) (h k fingerprint : Text) (p q : ℕ)
    → load (save items h p fingerprint) k q
      ≡ (if text_eq (account k q) (account h p) then some fingerprint else load items k q)
unfolding load save
load-save items h k fingerprint p q = lookup_first (account h p) (account k q) fingerprint items

same_account : (h k : Text) (p q : ℕ) → h ≡ k → p ≡ q → text_eq (account k q) (account h p) ≡ true
same_account h k p q e n = rw (e, n) (text_eq_refl (account k q))

text_eq-account :
    (h k : Text) (p q : ℕ)
    → p < 65536
    → q < 65536
    → text_eq (account k q) (account h p) ≡ (text_eq h k && p == q)
text_eq-account h k p q hp hq = elim (Bool-cases (text_eq (account k q) (account h p))) [
  | inl t ↦
      let (e, n) = account-injective h k p q hp hq (sym (text_eq→eq _ _ t)) in
      ground (arith, t, ap (text_eq h) e, text_eq_refl h)
  | inr f ↦ ground (arith, f, text_eq→eq h k, same_account h k p q)
]

-- Behind a `save` of a fingerprint, the key of that host and port is known where it is that
-- fingerprint, and where it is another it is a mismatch with that fingerprint; behind a `delete`
-- it is unknown; the verdict on every other host and port stays, so that no two of them share an
-- account; for ports below 2^16.
pub verify-save :
    (items : Items) (h k fingerprint key : Text) (p q : ℕ)
    → p < 65536
    → q < 65536
    → let same = text_eq h k && p == q in
      (verify (save items h p fingerprint) k q key ≡ (
        if same
        then (if text_eq fingerprint key then matches else mismatch fingerprint)
        else verify items k q key))
      × (verify (delete items h p) k q key ≡ (if same then unknown else verify items k q key))
unfolding verify verdict_of
verify-save items h k fingerprint key p q hp hq =
    let s = load-save items h k fingerprint p q in
    let d = load-delete items h k p q in
    let e = text_eq-account h k p q hp hq in
    elim (Bool-cases (text_eq h k && p == q)) [
      | inl t ↦ (rw (s, e, t) refl, rw (d, e, t) refl)
      | inr f ↦ (rw (s, e, f) refl, rw (d, e, f) refl)
    ]
