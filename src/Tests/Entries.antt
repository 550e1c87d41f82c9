-- ===== src/Tests/Entries.antt =====
-- hosts/model.rs at concrete texts.
use bed_term.Prelude.{◌≡◌, refl, true, [], ◌∷◌, arith}
use bed_term.Prelude.Text.{codes}
use bed_term.Prelude.Decimal.{print_digits, print_ℕ}
use bed_term.HostsList.{HostListEntry}
use bed_term.HostsList.Reader.{entries, reader_panics, reader_hangs, parse_entries_json}
use bed_term.HostsList.Reader.Panic.{escaped_blob, parse_entries_json_panics}
use bed_term.HostsList.Reader.Total.{parse_entries_json_ends}
use bed_term.HostsList.Reader.Strings.{escaped_char, escaped_text, quote}
use bed_term.HostsList.Reader.Written.{write_bool, member, write_entry, write_more, write_entries}
use bed_term.HostsList.Reader.Lists.{parse_entries_json-write_entries}

abbrev mac : HostListEntry
mac = record {
  id = codes "1";
  label = codes "My\t\"Mac\"";
  host = codes "10.0.0.5";
  port = 2222;
  username = codes "yi";
  auth_is_key = true;
}

parse_entries_json-write_entries_example :
    parse_entries_json (write_entries (mac ∷ mac ∷ [])) ≡ entries (mac ∷ mac ∷ [])
parse_entries_json-write_entries_example =
    parse_entries_json-write_entries (mac ∷ mac ∷ []) (omega arith, (omega arith, tt))

parse_entries_json_ends_example : ¬ (parse_entries_json (codes "[{\"id\":") ≡ reader_hangs)
parse_entries_json_ends_example = parse_entries_json_ends (codes "[{\"id\":")

-- 233 is `é`.
parse_entries_json_panics_example :
    parse_entries_json (escaped_blob (codes "caf") 233 (codes "\"}")) ≡ reader_panics
parse_entries_json_panics_example =
    parse_entries_json_panics (codes "caf") (codes "\"}") 233
      ((refl, refl), ((refl, refl), ((refl, refl), tt))) (omega arith)

writes_mac :
    write_entries (mac ∷ [])
    ≡ codes
        "[{\"id\":\"1\",\"label\":\"My\\t\\\"Mac\\\"\",\"host\":\"10.0.0.5\",\"port\":2222,\"username\":\"yi\",\"authIsKey\":true}]"
unfolding write_entries write_entry write_more member quote escaped_text escaped_char write_bool
    print_ℕ print_digits
writes_mac = refl
