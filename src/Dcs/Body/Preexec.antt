-- ===== src/Dcs/Body/Preexec.antt =====
-- The body that `__bedterm_emit_preexec` of bedterm-integration.sh writes.
use bed_term.Prelude.{◌≡◌, refl, some, [], ◌∷◌, ◌++◌, arith, Bytes, Forall, Forall-append, IsByte}
use bed_term.Prelude.Text.{codes}
use bed_term.Utf8.{from_utf8}
use bed_term.Dcs.Hex.{hex_of}
use bed_term.Dcs.Hex.RoundTrip.{hex_decode-hex_of}
use bed_term.Dcs.Json.{starts_with, byte_is, key_here, skip_spaces, find_string}
use bed_term.Dcs.Json.Escape.{escape_byte, escape_bytes, chomp, json_string, chomp-IsByte}
use bed_term.Utf8.Chomp.{from_utf8-chomp}
use bed_term.Dcs.Json.Search.{string_rest}
use bed_term.Dcs.Body.{preexec, parse_body}
use bed_term.Dcs.Body.Keys.{find_string-text, string_rest-IsByte}

abbrev preexec_head : Bytes
preexec_head = codes "{\"hook\":\"Preexec\",\"value\":{\"command\":"

-- The body for a command of which every byte is printed.
abbrev preexec_body : Bytes → Bytes
preexec_body command = preexec_head ++ b'"' ∷ string_rest command b'}' (b'}' ∷ [])

-- What `__bedterm_emit_preexec` hands to the encoder.
abbrev pub preexec_json : Bytes → Bytes
preexec_json command = preexec_head ++ json_string command (b'}' ∷ b'}' ∷ [])

module _ (command : Bytes) (v : Forall IsByte command) where
  hook-preexec : find_string (preexec_body command) (codes "hook") ≡ some (codes "Preexec")
  unfolding key_here skip_spaces starts_with byte_is escape_bytes escape_byte
  hook-preexec =
      find_string-text (codes "hook") (codes "Preexec") (preexec_body command) 1 _ _ _ (omega arith)
        refl refl refl (omega arith) refl refl

  command-preexec : find_string (preexec_body command) (codes "command") ≡ some command
  unfolding key_here skip_spaces starts_with byte_is
  command-preexec =
      find_string-text (codes "command") command (preexec_body command) 27 _ _ _ v refl refl refl
        (omega arith) refl refl

  preexec_body-IsByte : Forall IsByte (preexec_body command)
  preexec_body-IsByte =
      Forall-append IsByte preexec_head (b'"' ∷ string_rest command b'}' (b'}' ∷ [])) (omega arith)
        (omega arith, string_rest-IsByte command b'}' (b'}' ∷ []) v (omega arith))

  parse_body-preexec_body :
      from_utf8 command ≡ some command
      → parse_body (hex_of (preexec_body command)) ≡ some (preexec command)
  unfolding parse_body
  parse_body-preexec_body u = rw (
    hex_decode-hex_of (preexec_body command) preexec_body-IsByte,
    hook-preexec,
    command-preexec,
    u,
  )

-- The body that the shell side writes for a command is read back as that command, whatever UTF-8
-- is in it, without a newline at its end.
pub parse_body-preexec :
    (command : Bytes)
    → Forall IsByte command
    → from_utf8 command ≡ some command
    → parse_body (hex_of (preexec_json command)) ≡ some (preexec (chomp command))
parse_body-preexec command v u =
    parse_body-preexec_body (chomp command) (chomp-IsByte command v) (from_utf8-chomp command u)
