-- ===== src/ConnectForm/Address/Paste.antt =====
-- Addresses pasted into the form of rust-core/bedterm-ios/src/connect_form/model.rs.
use bed_term.Prelude.{
  ℕ, ◌<◌, ◌≡◌, refl, ap, ◌∙◌, ◌⊎◌, inl, inr, false, none, some, [], ◌∷◌, ◌++◌, arith, ◌==◌,
  Bool-cases, Option-cases, >>=-eq-some, Forall,
}
use bed_term.Prelude.Text.{Text, is_empty}
use bed_term.Prelude.Decimal.{print_ℕ, IsDigit}
use bed_term.ConnectForm.Address.{
  is_whitespace, trim_start, trim_end, trim, parse_u16, split_last, colon_count, in_brackets,
  after_colon, one_colon, bare_host, host_of, normalized_host, bracket_port, colon_port, or_else,
  pasted_port, normalized_port,
}
use bed_term.ConnectForm.Address.Trim.{
  IsSpace, trim_end_behind, trim_padded, digit_no_space, trim_end-digits, print_ℕ-IsDigit,
  print_ℕ_cons, parse_u16-print_ℕ, Lacks, split_first-append, split_last-append, colon_count-append,
  colon_count-Lacks, digits-Lacks,
}

-- A text that ends in a port is not shortened at its end.
trim_end_port : (xs : Text) (p : ℕ) → trim_end (xs ++ (b':' ∷ print_ℕ p)) ≡ xs ++ (b':' ∷ print_ℕ p)
trim_end_port xs p =
    let (d, ds, e) = print_ℕ_cons p in
    trim_end_behind xs b':' (print_ℕ p) (
      rw e (
        trim_end_behind (b':' ∷ []) d ds
          (rw e at (trim_end-digits (print_ℕ p) (print_ℕ-IsDigit p)))))

port-Lacks : (p : ℕ) → Lacks b':' (print_ℕ p)
port-Lacks p = digits-Lacks (print_ℕ p) (print_ℕ-IsDigit p)

one_colon_port :
    (h : Text) (p : ℕ) → Lacks b':' h → one_colon (h ++ (b':' ∷ print_ℕ p)) ≡ some (h, print_ℕ p)
unfolding one_colon
one_colon_port h p l =
    rw
      (
        colon_count-append h (b':' ∷ print_ℕ p),
        colon_count-Lacks h l,
        split_last-append b':' h (print_ℕ p) (port-Lacks p),
      )
      (unfold colon_count in rw (colon_count-Lacks (print_ℕ p) (port-Lacks p)) refl)

plain-in_brackets : (c : ℕ) (cs : Text) → (c == b'[') ≡ false → in_brackets (c ∷ cs) ≡ none
unfolding in_brackets
plain-in_brackets c cs h = rw h refl

host_of_plain :
    (s h tail : Text) (p : ℕ)
    → in_brackets s ≡ none
    → one_colon s ≡ some (h, tail)
    → parse_u16 tail ≡ some p
    → (host_of s ≡ h) × (pasted_port s ≡ some p)
unfolding host_of bare_host pasted_port bracket_port colon_port or_else
host_of_plain s h tail p b o u = ground arith

-- A host without a colon, a leading bracket or a leading space, pasted with a colon and a port
-- behind it and white space around, is split again into that host and that port, whatever the
-- field of the port says; for a port below 2^16.
pub normalized_paste :
    (before after port_raw cs : Text) (c p : ℕ)
    → Forall IsSpace before
    → Forall IsSpace after
    → is_whitespace c ≡ false
    → (c == b'[') ≡ false
    → Lacks b':' (c ∷ cs)
    → p < 65536
    → let raw = before ++ (((c ∷ cs) ++ (b':' ∷ print_ℕ p)) ++ after) in
      (normalized_host raw ≡ c ∷ cs) × (normalized_port raw port_raw ≡ some p)
unfolding normalized_host normalized_port or_else
normalized_paste before after port_raw cs c p hb ha hc hn l hp =
    let rest = cs ++ (b':' ∷ print_ℕ p) in
    let (host, port) =
      host_of_plain (c ∷ rest) (c ∷ cs) (print_ℕ p) p (plain-in_brackets c rest hn)
        (one_colon_port (c ∷ cs) p l) (parse_u16-print_ℕ p hp) in
    rw (trim_padded before after c rest hb ha hc (trim_end_port (c ∷ cs) p), host, port)
      (refl, refl)

host_of_bracketed :
    (s h tail : Text) (p : ℕ)
    → in_brackets s ≡ some (h, b':' ∷ tail)
    → parse_u16 tail ≡ some p
    → (host_of s ≡ h) × (pasted_port s ≡ some p)
unfolding host_of pasted_port bracket_port or_else after_colon
host_of_bracketed s h tail p b u = ground arith

in_brackets-append :
    (h rest : Text) → Lacks b']' h → in_brackets (b'[' ∷ (h ++ (b']' ∷ rest))) ≡ some (h, rest)
unfolding in_brackets
in_brackets-append h rest l = rw (split_first-append b']' h rest l) refl

-- A host in brackets, pasted with a colon and a port behind the brackets, is split likewise.
pub normalized_bracketed :
    (before after port_raw h : Text) (p : ℕ)
    → Forall IsSpace before
    → Forall IsSpace after
    → Lacks b']' h
    → p < 65536
    → let raw = before ++ ((b'[' ∷ (h ++ (b']' ∷ b':' ∷ print_ℕ p))) ++ after) in
      (normalized_host raw ≡ h) × (normalized_port raw port_raw ≡ some p)
unfolding normalized_host normalized_port or_else
normalized_bracketed before after port_raw h p hb ha l hp =
    let rest = h ++ (b']' ∷ b':' ∷ print_ℕ p) in
    let (host, port) =
      host_of_bracketed (b'[' ∷ rest) h (print_ℕ p) p (in_brackets-append h (b':' ∷ print_ℕ p) l)
        (parse_u16-print_ℕ p hp) in
    let whole : (b'[' ∷ h) ++ ((b']' ∷ []) ++ (b':' ∷ print_ℕ p)) ≡ b'[' ∷ rest = refl in
    let tight : trim_end (b'[' ∷ rest) ≡ b'[' ∷ rest =
      trim_end_behind (b'[' ∷ h) b']' (b':' ∷ print_ℕ p) (trim_end_port (b']' ∷ []) p) in
    rw (trim_padded before after b'[' rest hb ha (unfold is_whitespace in refl) tight, host, port)
      (refl, refl)

split_last-eq :
    (x : ℕ) (s front back : Text) → split_last x s ≡ some (front, back) → s ≡ front ++ (x ∷ back)
unfolding split_last
split_last-eq x [] front back h = cc
split_last-eq x (c ∷ cs) front back h = elim (Option-cases (split_last x cs)) [
  | inl e ↦ ground (arith, e)
  | inr (p, e) ↦ ground (arith, e, split_last-eq x cs p.0 p.1 e)
]

one_colon-eq : (s front back : Text) → one_colon s ≡ some (front, back) → s ≡ front ++ (b':' ∷ back)
unfolding one_colon
one_colon-eq s front back h = elim (Bool-cases (colon_count s == 1)) [
  | inl e ↦ split_last-eq b':' s front back (ground arith)
  | inr e ↦ ground arith
]

-- Where no port stands behind a colon, and where one does.
host_of_whole :
    (s : Text)
    → in_brackets s ≡ none
    → colon_port s ≡ none
    → (host_of s ≡ s) × (pasted_port s ≡ none)
unfolding host_of bare_host pasted_port bracket_port colon_port or_else
host_of_whole s b c = elim (Option-cases (one_colon s)) [
  | inl e ↦ ground (arith, e)
  | inr (q, e) ↦ ground (arith, e)
]

colon_port-eq-some :
    (s : Text) (p : ℕ)
    → colon_port s ≡ some p
    → (front : Text) × (tail : Text) × (one_colon s ≡ some (front, tail))
      × (parse_u16 tail ≡ some p)
unfolding colon_port
colon_port-eq-some s p h =
    let ((front, tail), e, k) = >>=-eq-some (one_colon s) _ h in (front, tail, e, k)

-- For a text that is not in brackets, the two functions split alike: either the host is the whole
-- trimmed text and the port that of its own field, or the text is the host, a colon and a number
-- of 16 bits, and that number is the port.
pub normalized_agree :
    (raw port_raw : Text)
    → in_brackets (trim raw) ≡ none
    → ((normalized_host raw ≡ trim raw)
        × (normalized_port raw port_raw ≡ parse_u16 (trim port_raw)))
      ⊎ ((tail : Text) × (p : ℕ) × (trim raw ≡ normalized_host raw ++ (b':' ∷ tail))
          × (parse_u16 tail ≡ some p)
          × (normalized_port raw port_raw ≡ some p))
unfolding normalized_host normalized_port or_else
normalized_agree raw port_raw b = elim (Option-cases (colon_port (trim raw))) [
  | inl e ↦ let (whole, nothing) = host_of_whole (trim raw) b e in inl (whole, rw nothing refl)
  | inr (p, e) ↦
      let (front, tail, o, k) = colon_port-eq-some (trim raw) p e in
      let (host, port) = host_of_plain (trim raw) front tail p b o k in
      inr (tail, p, rw host (one_colon-eq (trim raw) front tail o), k, rw port refl)
]

-- A host as it is stored: no space around it, no brackets, and no port in it.
pub record IsPlainHost (h : Text) : Type 0 where
  pub tight : trim h ≡ h
  pub no_brackets : in_brackets h ≡ none
  pub no_port : colon_port h ≡ none
  pub given : is_empty h ≡ false

pub plain-normalized :
    (h port_raw : Text)
    → IsPlainHost h
    → (normalized_host h ≡ h) × (normalized_port h port_raw ≡ parse_u16 (trim port_raw))
unfolding normalized_host normalized_port or_else
plain-normalized h port_raw w =
    let (whole, nothing) = host_of_whole h w.no_brackets w.no_port in
    (rw w.tight whole, rw (w.tight, nothing) refl)

trim-digits : (ds : Text) → Forall IsDigit ds → trim ds ≡ ds
unfolding trim trim_start
trim-digits [] h = trim_end-digits [] h
trim-digits (d ∷ ds) h = rw (digit_no_space d h.0) (trim_end-digits (d ∷ ds) h)

-- The port as it is printed into the field for it.
pub plain-port :
    (h : Text) (p : ℕ) → IsPlainHost h → p < 65536 → normalized_port h (print_ℕ p) ≡ some p
plain-port h p w k =
    (plain-normalized h (print_ℕ p) w).1
    ∙ ap parse_u16 (trim-digits (print_ℕ p) (print_ℕ-IsDigit p))
    ∙ parse_u16-print_ℕ p k
