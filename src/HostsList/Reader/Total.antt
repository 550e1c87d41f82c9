-- ===== src/HostsList/Reader/Total.antt =====
-- The reader of rust-core/bedterm-ios/src/hosts/model.rs ends: its loops have fuel enough.
use bed_term.Prelude.{
  ℕ, zero, suc, ◌≤◌, ◌<◌, ◌≡◌, inl, inr, List, [], ◌∷◌, ◌++◌, arith, Bool-cases, length,
}
use bed_term.Prelude.Text.{Text, is_empty}
use bed_term.ConnectForm.Address.{trim}
use bed_term.HostsList.{
  HostListEntry, Outcome, parsed, failed, panicked, exhausted, skip_ws, parse_string, parse_number,
  as_u16, parse_bool, skip_value,
}
use bed_term.HostsList.Reader.{
  blank_entry, text_field, parse_field, parse_member, read_member, Follow, next, close, wrong,
  follow, entry_behind, entry_round, entry_loop, open_entry, parse_entry, array_behind, array_round,
  array_loop, open_array, parse_array, reader_hangs, entries_of, parse_entries_json,
}
use bed_term.HostsList.Reader.Shrink.{
  Reads, and_then-Reads, Reads-more, parse_string-Reads, length-skip_ws, parse_number-Reads,
  parse_bool-Reads, skip_value-Reads,
}

text_field-Reads :
    (set : Text → HostListEntry) (s : Text) → Reads (suc (length s)) (text_field set s)
unfolding text_field
text_field-Reads set s =
    and_then-Reads (length s) (suc (length s)) (parse_string s) _ (parse_string-Reads s)
      (λ a rest h. omega arith)

parse_field-Reads :
    (e : HostListEntry) (key s : Text) → Reads (suc (length s)) (parse_field e key s)
unfolding parse_field
parse_field-Reads e key s =
    let ids = text_field-Reads (λ v. record e { id = v }) s in
    let labels = text_field-Reads (λ v. record e { label = v }) s in
    let hosts = text_field-Reads (λ v. record e { host = v }) s in
    let usernames = text_field-Reads (λ v. record e { username = v }) s in
    let number =
      and_then-Reads (suc (length s)) (suc (length s)) (parse_number s)
        (λ v rest. parsed (record e { port = as_u16 v }) rest) (parse_number-Reads s)
        (λ a rest h. h) in
    let bool =
      and_then-Reads (suc (length s)) (suc (length s)) (parse_bool s)
        (λ v rest. parsed (record e { auth_is_key = v }) rest) (parse_bool-Reads s)
        (λ a rest h. h) in
    let skipped =
      and_then-Reads (suc (length s)) (suc (length s)) (skip_value s) (λ v rest. parsed e rest)
        (skip_value-Reads s) (λ a rest h. h) in
    ground arith

parse_member-Reads : (e : HostListEntry) (key s : Text) → Reads (length s) (parse_member e key s)
unfolding parse_member
parse_member-Reads e key [] = tt
parse_member-Reads e key (c ∷ cs) =
    let field =
      Reads-more (suc (length (skip_ws cs))) (suc (length cs)) _
        (parse_field-Reads e key (skip_ws cs)) (omega (arith, length-skip_ws cs)) in
    ground arith

read_member-Reads : (e : HostListEntry) (s : Text) → Reads (length s) (read_member e s)
unfolding read_member
read_member-Reads e s =
    and_then-Reads (length s) (length s) (parse_string s) _ (parse_string-Reads s) (λ key rest h.
      Reads-more (length (skip_ws rest)) (length s) _ (parse_member-Reads e key (skip_ws rest))
        (omega (arith, length-skip_ws rest)))

-- What is left for the next round is not longer than `n`.
FollowsWithin : ℕ → Follow → Type 0
FollowsWithin n (next s) = length s ≤ n
FollowsWithin n (close s) = length s ≤ n
FollowsWithin n wrong = Unit

follow-FollowsWithin : (stop : ℕ) (s : Text) → FollowsWithin (length s) (follow stop s)
unfolding follow FollowsWithin
follow-FollowsWithin stop [] = tt
follow-FollowsWithin stop (c ∷ cs) = ground arith

-- A loop is good below `m` if its runs on texts that are shorter than `m` are.
IsGoodBelow {ℓ} : {A : Type ℓ} → ℕ → (A → Text → Outcome A) → Type ℓ
IsGoodBelow m again = (a : _) (s : Text) → length s < m → Reads (length s) (again a s)

module _ (m : ℕ) where
  entry_behind-Reads :
      (again : HostListEntry → Text → Outcome HostListEntry) (n : ℕ) (e : HostListEntry)
      (f : Follow)
      → IsGoodBelow m again
      → FollowsWithin n f
      → n < m
      → Reads m (entry_behind again e f)
  unfolding entry_behind FollowsWithin IsGoodBelow
  entry_behind-Reads again n e (next s) h k l =
      Reads-more (length s) m _ (h e s (omega arith)) (omega arith)
  entry_behind-Reads again n e (close s) h k l =
      Reads-more (length s) m _ (h e s (omega arith)) (omega arith)
  entry_behind-Reads again n e wrong h k l = tt

  array_behind-Reads :
      (again : List HostListEntry → Text → Outcome (List HostListEntry)) (n : ℕ)
      (es : List HostListEntry) (f : Follow)
      → IsGoodBelow m again
      → FollowsWithin n f
      → n < m
      → Reads m (array_behind again es f)
  unfolding array_behind FollowsWithin IsGoodBelow
  array_behind-Reads again n es (next s) h k l =
      Reads-more (length s) m _ (h es s (omega arith)) (omega arith)
  array_behind-Reads again n es (close s) h k l = omega arith
  array_behind-Reads again n es wrong h k l = tt

entry_round-Reads :
    (again : HostListEntry → Text → Outcome HostListEntry) (e : HostListEntry) (t : Text)
    → IsGoodBelow (length t) again
    → Reads (length t) (entry_round again e t)
unfolding entry_round
entry_round-Reads again e [] h = tt
entry_round-Reads again e (c ∷ cs) h =
    let m = length (c ∷ cs) in
    let go =
      and_then-Reads m m (read_member e (c ∷ cs))
        (λ e' rest. entry_behind again e' (follow b'}' (skip_ws rest)))
        (read_member-Reads e (c ∷ cs))
        (λ e' rest l.
          entry_behind-Reads m again (length (skip_ws rest)) e' (follow b'}' (skip_ws rest)) h
            (follow-FollowsWithin b'}' (skip_ws rest)) (omega (arith, length-skip_ws rest))) in
    ground arith

entry_loop-Reads :
    (fuel : ℕ) (e : HostListEntry) (s : Text)
    → length s < fuel
    → Reads (length s) (entry_loop fuel e s)
unfolding entry_loop IsGoodBelow
entry_loop-Reads zero e s h = absurd (omega arith)
entry_loop-Reads (suc fuel) e s h =
    Reads-more (length (skip_ws s)) (length s) _
      (entry_round-Reads (entry_loop fuel) e (skip_ws s)
        (λ e' s' l. entry_loop-Reads fuel e' s' (omega (arith, length-skip_ws s))))
      (length-skip_ws s)

open_entry-Reads : (t : Text) → Reads (length t) (open_entry t)
unfolding open_entry
open_entry-Reads [] = tt
open_entry-Reads (c ∷ cs) =
    let go =
      Reads-more (length cs) (suc (length cs)) _
        (entry_loop-Reads (suc (length cs)) blank_entry cs (omega arith)) (omega arith) in
    ground arith

parse_entry-Reads : (s : Text) → Reads (length s) (parse_entry s)
unfolding parse_entry
parse_entry-Reads s =
    Reads-more (length (skip_ws s)) (length s) _ (open_entry-Reads (skip_ws s)) (length-skip_ws s)

array_round-Reads :
    (again : List HostListEntry → Text → Outcome (List HostListEntry)) (es : List HostListEntry)
    (t : Text)
    → IsGoodBelow (length t) again
    → Reads (length t) (array_round again es t)
unfolding array_round
array_round-Reads again es [] h = tt
array_round-Reads again es (c ∷ cs) h =
    let m = length (c ∷ cs) in
    let go =
      and_then-Reads m m (parse_entry (c ∷ cs))
        (λ e rest. array_behind again (es ++ (e ∷ [])) (follow b']' (skip_ws rest)))
        (parse_entry-Reads (c ∷ cs))
        (λ e rest l.
          array_behind-Reads m again (length (skip_ws rest)) (es ++ (e ∷ []))
            (follow b']' (skip_ws rest)) h (follow-FollowsWithin b']' (skip_ws rest))
            (omega (arith, length-skip_ws rest))) in
    ground arith

array_loop-Reads :
    (fuel : ℕ) (es : List HostListEntry) (s : Text)
    → length s < fuel
    → Reads (length s) (array_loop fuel es s)
unfolding array_loop IsGoodBelow
array_loop-Reads zero es s h = absurd (omega arith)
array_loop-Reads (suc fuel) es s h =
    Reads-more (length (skip_ws s)) (length s) _
      (array_round-Reads (array_loop fuel) es (skip_ws s)
        (λ es' s' l. array_loop-Reads fuel es' s' (omega (arith, length-skip_ws s))))
      (length-skip_ws s)

open_array-Reads : (t : Text) → Reads (length t) (open_array t)
unfolding open_array
open_array-Reads [] = tt
open_array-Reads (c ∷ cs) =
    let go =
      Reads-more (length cs) (suc (length cs)) _
        (array_loop-Reads (suc (length cs)) [] cs (omega arith)) (omega arith) in
    ground arith

entries_of-Reads :
    (n : ℕ) (o : Outcome (List HostListEntry)) → Reads n o → ¬ (entries_of o ≡ reader_hangs)
unfolding entries_of
entries_of-Reads n (parsed es rest) h = λ e. cc
entries_of-Reads n failed h = λ e. cc
entries_of-Reads n panicked h = λ e. cc
entries_of-Reads n exhausted h = absurd h

-- On every text the parser of the list of hosts comes to an end: the fuel of its loops is never
-- used up.
pub parse_entries_json_ends : (blob : Text) → ¬ (parse_entries_json blob ≡ reader_hangs)
unfolding parse_entries_json parse_array
parse_entries_json_ends blob =
    let ends =
      entries_of-Reads _ (open_array (skip_ws (trim blob)))
        (open_array-Reads (skip_ws (trim blob))) in
    elim (Bool-cases (is_empty (trim blob))) [ inl e ↦ rw e (λ p. cc) | inr e ↦ rw e ends ]
