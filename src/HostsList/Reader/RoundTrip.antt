-- ===== src/HostsList/Reader/RoundTrip.antt =====
-- The reader of rust-core/bedterm-ios/src/hosts/model.rs reads back a list of hosts.
use bed_term.Prelude.{
  ℕ, zero, suc, ◌<◌, ◌≡◌, refl, ap, ◌∙◌, ◌∷◌, ◌++◌, arith, length, length-append,
}
use bed_term.Prelude.Decimal.{is_ascii_digit, print_ℕ}
use bed_term.Prelude.Text.{codes, Text}
use bed_term.HostsList.{HostListEntry, Outcome, parsed, and_then, skip_ws}
use bed_term.HostsList.Reader.{
  blank_entry, parse_field, follow, entry_behind, entry_round, entry_loop, open_entry, parse_entry,
}
use bed_term.HostsList.Reader.Strings.{quote, skip_ws_stops, read_member-quote}
use bed_term.HostsList.Reader.Written.{
  write_bool, member, write_entry, skip_ws-quote, id_field, label_field, host_field, username_field,
  auth_field, port_field,
}

-- With fuel enough the loop of `parse_entry` reads `e'` from `s`, and leaves `rest`.
EntryReads : HostListEntry → Text → HostListEntry → Text → Type 0
EntryReads e s e' rest = (fuel : ℕ) → length s < fuel → entry_loop fuel e s ≡ parsed e' rest

entry_round-member :
    (again : HostListEntry → Text → Outcome HostListEntry) (e e₁ : HostListEntry)
    (key value tail : Text)
    → parse_field e key (skip_ws (value ++ tail)) ≡ parsed e₁ tail
    → entry_round again e (skip_ws (member key value tail))
      ≡ entry_behind again e₁ (follow b'}' (skip_ws tail))
unfolding entry_round member
entry_round-member again e e₁ key value tail p =
    let read = read_member-quote e key (value ++ tail) ∙ p in
    rw (skip_ws-quote key (b':' ∷ (value ++ tail))) (
      unfold quote in
      ap
        (λ (o : Outcome HostListEntry).
          and_then o (λ e' rest. entry_behind again e' (follow b'}' (skip_ws rest))))
        read)

pub length-member : (key value tail : Text) → length tail < length (member key value tail)
unfolding member
length-member key value tail =
    rw (length-append (quote key) (b':' ∷ (value ++ tail)), length-append value tail) (omega arith)

-- A member with another behind it.
EntryReads-next :
    (e e₁ e₂ : HostListEntry) (key value tail rest : Text)
    → parse_field e key (skip_ws (value ++ (b',' ∷ tail))) ≡ parsed e₁ (b',' ∷ tail)
    → EntryReads e₁ tail e₂ rest
    → EntryReads e (member key value (b',' ∷ tail)) e₂ rest
unfolding EntryReads
EntryReads-next e e₁ e₂ key value tail rest p h zero l = absurd (omega arith)
EntryReads-next e e₁ e₂ key value tail rest p h (suc fuel) l =
    unfold entry_loop in
    (entry_round-member (entry_loop fuel) e e₁ key value (b',' ∷ tail) p
      ∙ ap (λ (s : Text). entry_behind (entry_loop fuel) e₁ (follow b'}' s))
          (skip_ws_stops b',' tail refl)
      ∙ (unfold entry_behind follow in
          h fuel (omega (arith, length-member key value (b',' ∷ tail)))))

-- The last member.
EntryReads-last :
    (e e₁ : HostListEntry) (key value rest : Text)
    → parse_field e key (skip_ws (value ++ (b'}' ∷ rest))) ≡ parsed e₁ (b'}' ∷ rest)
    → EntryReads e (member key value (b'}' ∷ rest)) e₁ rest
unfolding EntryReads
EntryReads-last e e₁ key value rest p zero l = absurd (omega arith)
EntryReads-last e e₁ key value rest p (suc zero) l =
    absurd (omega (arith, length-member key value (b'}' ∷ rest)))
EntryReads-last e e₁ key value rest p (suc (suc fuel)) l =
    unfold entry_loop in
    (entry_round-member (entry_loop (suc fuel)) e e₁ key value (b'}' ∷ rest) p
      ∙ ap (λ (s : Text). entry_behind (entry_loop (suc fuel)) e₁ (follow b'}' s))
          (skip_ws_stops b'}' rest refl)
      ∙ (unfold entry_behind follow entry_loop entry_round skip_ws in refl))

-- `parse_entry` reads back an entry that is written.
pub parse_entry-write_entry :
    (e : HostListEntry) (rest : Text)
    → e.port < 65536
    → parse_entry (write_entry e rest) ≡ parsed e rest
parse_entry-write_entry e rest h =
    let e₀ = blank_entry in
    let e₁ : HostListEntry = record e₀ { id = e.id } in
    let e₂ : HostListEntry = record e₁ { label = e.label } in
    let e₃ : HostListEntry = record e₂ { host = e.host } in
    let e₄ : HostListEntry = record e₃ { port = e.port } in
    let e₅ : HostListEntry = record e₄ { username = e.username } in
    let s₆ = member (codes "authIsKey") (write_bool e.auth_is_key) (b'}' ∷ rest) in
    let s₅ = member (codes "username") (quote e.username) (b',' ∷ s₆) in
    let s₄ = member (codes "port") (print_ℕ e.port) (b',' ∷ s₅) in
    let s₃ = member (codes "host") (quote e.host) (b',' ∷ s₄) in
    let s₂ = member (codes "label") (quote e.label) (b',' ∷ s₃) in
    let s₁ = member (codes "id") (quote e.id) (b',' ∷ s₂) in
    let reads : EntryReads e₀ s₁ e rest =
      EntryReads-next e₀ e₁ e (codes "id") (quote e.id) s₂ rest (id_field e₀ e.id (b',' ∷ s₂)) (
        EntryReads-next e₁ e₂ e (codes "label") (quote e.label) s₃ rest
          (label_field e₁ e.label (b',' ∷ s₃))
          (EntryReads-next e₂ e₃ e (codes "host") (quote e.host) s₄ rest
            (host_field e₂ e.host (b',' ∷ s₄))
            (EntryReads-next e₃ e₄ e (codes "port") (print_ℕ e.port) s₅ rest
              (port_field e₃ e.port b',' s₅ h (unfold is_ascii_digit in refl))
              (EntryReads-next e₄ e₅ e (codes "username") (quote e.username) s₆ rest
                (username_field e₄ e.username (b',' ∷ s₆))
                (EntryReads-last e₅ e (codes "authIsKey") (write_bool e.auth_is_key) rest
                  (auth_field e₅ e.auth_is_key (b'}' ∷ rest))))))) in
    unfold parse_entry open_entry write_entry skip_ws EntryReads in
    reads (suc (length s₁)) (omega arith)
