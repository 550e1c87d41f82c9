-- ===== src/HostsList/Reader.antt =====
-- `parse_entry`, `parse_array` and `parse_entries_json` of rust-core/bedterm-ios/src/hosts/model.rs.
-- The loops are recursions on fuel; that the length of the text is enough is proved in Reader/Total.
pub mod Shrink
pub mod Total
pub mod RoundTrip
pub mod Panic
pub mod Strings
pub mod Written
pub mod Lists
use bed_term.Prelude.{ℕ, zero, suc, false, List, [], ◌∷◌, ◌++◌, ◌==◌, if◌then◌else◌, length}
use bed_term.Prelude.Int.{ℤ}
use bed_term.Prelude.Text.{codes, text_eq, Text, is_empty}
use bed_term.ConnectForm.Address.{trim}
use bed_term.HostsList.{
  HostListEntry, Outcome, parsed, failed, panicked, exhausted, and_then, skip_ws, parse_string,
  parse_number, as_u16, parse_bool, skip_value,
}

unfoldable pub blank_entry : HostListEntry
blank_entry = record {
  id = [];
  label = [];
  host = [];
  port = 22;
  username = [];
  auth_is_key = false;
}

text_field : (Text → HostListEntry) → Text → Outcome HostListEntry
text_field set s = and_then (parse_string s) λ v rest. parsed (set v) rest

-- `match key.as_str()`: the entry with the value, and the rest behind it.
unfoldable pub parse_field : HostListEntry → Text → Text → Outcome HostListEntry
unfolding text_field
parse_field e key s =
    if text_eq key (codes "id")
    then text_field (λ v. record e { id = v }) s
    else if text_eq key (codes "label")
    then text_field (λ v. record e { label = v }) s
    else if text_eq key (codes "host")
    then text_field (λ v. record e { host = v }) s
    else if text_eq key (codes "username")
    then text_field (λ v. record e { username = v }) s
    else if text_eq key (codes "port")
    then and_then (parse_number s) (λ v rest. parsed (record e { port = as_u16 v }) rest)
    else if text_eq key (codes "authIsKey")
    then and_then (parse_bool s) (λ v rest. parsed (record e { auth_is_key = v }) rest)
    else and_then (skip_value s) (λ v rest. parsed e rest)

-- The value behind the key and its colon.
unfoldable pub parse_member : HostListEntry → Text → Text → Outcome HostListEntry
parse_member e key [] = failed
parse_member e key (c ∷ cs) = if c == b':' then parse_field e key (skip_ws cs) else failed

-- A round of the loop of `parse_entry` at a text that does not begin with `}`.
unfoldable pub read_member : HostListEntry → Text → Outcome HostListEntry
read_member e s = and_then (parse_string s) λ key rest. parse_member e key (skip_ws rest)

-- Where a loop over a list of items goes on behind an item.
pub data Follow : Type 0 where
  next : Text → Follow
  close : Text → Follow
  wrong : Follow

-- The `match` behind a member or an entry, where `stop` ends the list: what is left for the next
-- round, which for `stop` begins with it.
follow : ℕ → Text → Follow
follow stop [] = wrong
follow stop (c ∷ cs) = if c == b',' then next cs else if c == stop then close (c ∷ cs) else wrong

entry_behind :
    (HostListEntry → Text → Outcome HostListEntry) → HostListEntry → Follow → Outcome HostListEntry
entry_behind again e (next s) = again e s
entry_behind again e (close s) = again e s
entry_behind again e wrong = failed

-- A round of the loop of `parse_entry`, where `again` is the rounds behind it.
entry_round :
    (HostListEntry → Text → Outcome HostListEntry) → HostListEntry → Text → Outcome HostListEntry
unfolding entry_behind follow
entry_round again e [] = failed
entry_round again e (c ∷ cs) =
    if c == b'}'
    then parsed e cs
    else and_then (read_member e (c ∷ cs))
        λ e' rest. entry_behind again e' (follow b'}' (skip_ws rest))

unfoldable pub entry_loop : ℕ → HostListEntry → Text → Outcome HostListEntry
unfolding entry_round
entry_loop zero e s = exhausted
entry_loop (suc fuel) e s = entry_round (entry_loop fuel) e (skip_ws s)

open_entry : Text → Outcome HostListEntry
open_entry [] = failed
open_entry (c ∷ cs) = if c == b'{' then entry_loop (suc (length cs)) blank_entry cs else failed

-- A round begins with a text that is shorter by a quote at least, so the length is fuel enough.
unfoldable pub parse_entry : Text → Outcome HostListEntry
unfolding open_entry
parse_entry s = open_entry (skip_ws s)

array_behind :
    (List HostListEntry → Text → Outcome (List HostListEntry))
    → List HostListEntry
    → Follow
    → Outcome (List HostListEntry)
array_behind again es (next s) = again es s
array_behind again es (close s) = parsed es s
array_behind again es wrong = failed

-- A round of the loop of `parse_array`. The array's `]` behind an entry ends it at once.
array_round :
    (List HostListEntry → Text → Outcome (List HostListEntry))
    → List HostListEntry
    → Text
    → Outcome (List HostListEntry)
unfolding array_behind follow
array_round again es [] = failed
array_round again es (c ∷ cs) =
    if c == b']'
    then parsed es cs
    else and_then (parse_entry (c ∷ cs))
        λ e rest. array_behind again (es ++ (e ∷ [])) (follow b']' (skip_ws rest))

unfoldable pub array_loop : ℕ → List HostListEntry → Text → Outcome (List HostListEntry)
unfolding array_round
array_loop zero es s = exhausted
array_loop (suc fuel) es s = array_round (array_loop fuel) es (skip_ws s)

open_array : Text → Outcome (List HostListEntry)
open_array [] = failed
open_array (c ∷ cs) = if c == b'[' then array_loop (suc (length cs)) [] cs else failed

unfoldable pub parse_array : Text → Outcome (List HostListEntry)
unfolding open_array
parse_array s = open_array (skip_ws s)

-- A list that is read, or a panic. The source returns an empty list where the reader fails.
pub data Entries : Type 0 where
  entries : List HostListEntry → Entries
  reader_panics : Entries
  reader_hangs : Entries

entries_of : Outcome (List HostListEntry) → Entries
entries_of (parsed es rest) = entries es
entries_of failed = entries []
entries_of panicked = reader_panics
entries_of exhausted = reader_hangs

unfoldable pub parse_entries_json : Text → Entries
unfolding entries_of
parse_entries_json blob =
    if is_empty (trim blob) then entries [] else entries_of (parse_array (trim blob))
