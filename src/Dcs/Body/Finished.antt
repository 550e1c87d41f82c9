-- ===== src/Dcs/Body/Finished.antt =====
-- The body that `__bedterm_emit_finished` of bedterm-integration.sh writes.
use bed_term.Prelude.{
  ◌≡◌, refl, ◌∙◌, some, [], ◌∷◌, ◌++◌, arith, Bytes, Forall, Forall-append, IsByte,
}
use bed_term.Prelude.Int.{ℤ, IsI32, wrap_i32-IsI32}
use bed_term.Prelude.Text.{codes}
use bed_term.Dcs.Hex.{hex_of}
use bed_term.Dcs.Hex.RoundTrip.{hex_decode-hex_of}
use bed_term.Dcs.Json.{
  starts_with, byte_is, key_here, skip_spaces, find_from, find_string, find_int_in_value,
}
use bed_term.Dcs.Json.Escape.{escape_byte, escape_bytes}
use bed_term.Dcs.Json.Search.{find_from-quiet, find_from_hit}
use bed_term.Dcs.Json.Decimal.{print_ℤ, int_at-print_ℤ, print_ℤ-IsByte, print_ℤ-skip}
use bed_term.Dcs.Body.{command_finished, parse_body}
use bed_term.Dcs.Body.Keys.{find_string-text}

abbrev finished_head : Bytes
finished_head = codes "{\"hook\":\"CommandFinished\",\"value\":{\"exit_code\":"

-- What `__bedterm_emit_finished` hands to the encoder.
abbrev pub finished_json : ℤ → Bytes
finished_json n = finished_head ++ (print_ℤ n ++ b'}' ∷ b'}' ∷ [])

module _ (n : ℤ) (v : IsI32 n) where
  hook-finished : find_string (finished_json n) (codes "hook") ≡ some (codes "CommandFinished")
  unfolding key_here skip_spaces starts_with byte_is escape_bytes escape_byte
  hook-finished =
      find_string-text (codes "hook") (codes "CommandFinished") (finished_json n) 1 _ _ _
        (omega arith) refl refl refl (omega arith) refl refl

  finished_json-IsByte : Forall IsByte (finished_json n)
  finished_json-IsByte =
      Forall-append IsByte finished_head (print_ℤ n ++ b'}' ∷ b'}' ∷ []) (omega arith)
        (Forall-append IsByte (print_ℤ n) (b'}' ∷ b'}' ∷ []) (print_ℤ-IsByte n) (omega arith))

  exit_code-finished : find_int_in_value (finished_json n) (codes "exit_code") ≡ some n
  unfolding find_int_in_value key_here starts_with byte_is
  exit_code-finished =
      let key = codes "exit_code" in
      let found : find_from key 0 (finished_json n) ≡ some 47 =
        find_from-quiet key 35 0 (finished_json n) refl
        ∙ find_from_hit key 35 b'"' (codes "exit_code\":" ++ (print_ℤ n ++ b'}' ∷ b'}' ∷ [])) refl
            (omega arith) (print_ℤ-skip n (b'}' ∷ b'}' ∷ [])) in
      rw found (int_at-print_ℤ n b'}' (b'}' ∷ []) v (omega arith))

  -- The body that the shell side writes for an exit code is read back as that code, for every
  -- 32-bit integer.
  pub parse_body-finished : parse_body (hex_of (finished_json n)) ≡ some (command_finished n)
  unfolding parse_body
  parse_body-finished = rw (
    hex_decode-hex_of (finished_json n) finished_json-IsByte,
    hook-finished,
    exit_code-finished,
    wrap_i32-IsI32 n v,
  )
