-- ===== src/HostsList/Reader/Panic.antt =====
-- A text on which the reader of rust-core/bedterm-ios/src/hosts/model.rs panics.
use bed_term.Prelude.{ℕ, ◌≤◌, ◌≡◌, refl, ap, subst, ◌∙◌, [], ◌∷◌, ◌++◌, append_assoc, Forall}
use bed_term.Prelude.Text.{codes, text_eq, Text}
use bed_term.ConnectForm.Address.{is_whitespace, trim_start, trim_end, trim}
use bed_term.ConnectForm.Address.Trim.{trim_end_behind}
use bed_term.HostsList.{HostListEntry, panicked, skip_ws}
use bed_term.HostsList.Reader.{
  blank_entry, text_field, parse_field, read_member, entry_round, entry_loop, open_entry,
  parse_entry, array_round, array_loop, open_array, parse_array, reader_panics, entries_of,
  parse_entries_json,
}
use bed_term.HostsList.Reader.Strings.{
  IsPlainChar, parse_string_panics, escaped_char, escaped_text, quote, skip_ws_stops,
  read_member-quote,
}

-- An id of `s`, then a backslash, the character `c`, and the rest, which ends in a bracket.
unfoldable pub escaped_blob : Text → ℕ → Text → Text
escaped_blob s c rest = codes "[{\"id\":\"" ++ (s ++ (b'\\' ∷ c ∷ (rest ++ (b']' ∷ []))))

id_field_panics :
    (e : HostListEntry) (s rest : Text) (c : ℕ)
    → Forall IsPlainChar s
    → 128 ≤ c
    → parse_field e (codes "id") (b'"' ∷ (s ++ (b'\\' ∷ c ∷ rest))) ≡ panicked
unfolding parse_field text_field text_eq
id_field_panics e s rest c h k = rw (parse_string_panics s rest c h k) refl

escaped-member :
    (e : HostListEntry) (s rest : Text) (c : ℕ)
    → Forall IsPlainChar s
    → 128 ≤ c
    → read_member e (codes "\"id\":\"" ++ (s ++ (b'\\' ∷ c ∷ rest))) ≡ panicked
unfolding quote escaped_text escaped_char
escaped-member e s rest c h k =
    let body = b'"' ∷ (s ++ (b'\\' ∷ c ∷ rest)) in
    read_member-quote e (codes "id") body
    ∙ ap (parse_field e (codes "id")) (skip_ws_stops b'"' (s ++ (b'\\' ∷ c ∷ rest)) refl)
    ∙ id_field_panics e s rest c h k

escaped-entry :
    (s rest : Text) (c : ℕ)
    → Forall IsPlainChar s
    → 128 ≤ c
    → parse_entry (codes "{\"id\":\"" ++ (s ++ (b'\\' ∷ c ∷ rest))) ≡ panicked
unfolding parse_entry open_entry entry_loop entry_round skip_ws
escaped-entry s rest c h k = rw (escaped-member blank_entry s rest c h k) refl

escaped-array :
    (s rest : Text) (c : ℕ)
    → Forall IsPlainChar s
    → 128 ≤ c
    → parse_array (codes "[{\"id\":\"" ++ (s ++ (b'\\' ∷ c ∷ rest))) ≡ panicked
unfolding parse_array open_array array_loop array_round skip_ws
escaped-array s rest c h k = rw (escaped-entry s rest c h k) refl

trim-escaped_blob : (s rest : Text) (c : ℕ) → trim (escaped_blob s c rest) ≡ escaped_blob s c rest
unfolding escaped_blob trim trim_start is_whitespace
trim-escaped_blob s rest c =
    let front = codes "[{\"id\":\"" in
    let e : (front ++ (s ++ (b'\\' ∷ c ∷ rest))) ++ (b']' ∷ [])
        ≡ front ++ (s ++ (b'\\' ∷ c ∷ (rest ++ (b']' ∷ [])))) =
      append_assoc front (s ++ (b'\\' ∷ c ∷ rest)) (b']' ∷ [])
      ∙ ap (λ (t : Text). front ++ t) (append_assoc s (b'\\' ∷ c ∷ rest) (b']' ∷ [])) in
    subst (λ (t : Text). trim_end t ≡ t) e
      (trim_end_behind (front ++ (s ++ (b'\\' ∷ c ∷ rest))) b']' []
        (unfold trim_end is_whitespace in refl))

-- On an array whose first member is an id with a backslash before a character beyond ASCII,
-- behind plain characters only, the parser does not answer an empty list but panics.
pub parse_entries_json_panics :
    (s rest : Text) (c : ℕ)
    → Forall IsPlainChar s
    → 128 ≤ c
    → parse_entries_json (escaped_blob s c rest) ≡ reader_panics
unfolding parse_entries_json entries_of
parse_entries_json_panics s rest c h k =
    rw (trim-escaped_blob s rest c)
      (unfold escaped_blob in rw (escaped-array s (rest ++ (b']' ∷ [])) c h k) refl)
