-- ===== src/Dcs/Body/Precmd.antt =====
-- The body that `__bedterm_emit_precmd` of bedterm-integration.sh writes.
use bed_term.Prelude.{
  ◌+◌, ◌≡◌, refl, ap, ◌∙◌, some, [], ◌∷◌, ◌++◌, arith, Bytes, length, drop, drop-append, Forall,
  Forall-append, IsByte,
}
use bed_term.Prelude.Text.{codes}
use bed_term.Utf8.{from_utf8}
use bed_term.Dcs.Hex.{hex_of}
use bed_term.Dcs.Hex.RoundTrip.{hex_decode-hex_of}
use bed_term.Dcs.Json.{starts_with, byte_is, key_here, skip_spaces, find_from, read_at, find_string}
use bed_term.Dcs.Json.Escape.{
  escape_byte, escape_bytes, chomp, json_string, chomp-IsByte, read_at-escape_bytes,
}
use bed_term.Utf8.Chomp.{from_utf8-chomp}
use bed_term.Dcs.Json.Search.{find_from-quiet, find_from_hit, Plain, string_rest, find_from-string}
use bed_term.Dcs.Body.{precmd, non_empty, parse_body}
use bed_term.Dcs.Body.Keys.{find_string-text, string_rest-IsByte}

abbrev precmd_head : Bytes
precmd_head = codes "{\"hook\":\"Precmd\",\"value\":{\"pwd\":"

-- What stands behind the directory's string.
abbrev branch_part : Bytes → Bytes
branch_part branch = codes "\"git_branch\":" ++ b'"' ∷ string_rest branch b'}' (b'}' ∷ [])

-- The body for a directory and a branch of which every byte is printed.
abbrev precmd_body : Bytes → Bytes → Bytes
precmd_body pwd branch = precmd_head ++ b'"' ∷ string_rest pwd b',' (branch_part branch)

-- What `__bedterm_emit_precmd` hands to the encoder, of a prompt's directory and its branch.
abbrev pub precmd_json : Bytes → Bytes → Bytes
precmd_json pwd branch =
    precmd_head
    ++ json_string pwd (b',' ∷ (codes "\"git_branch\":" ++ json_string branch (b'}' ∷ b'}' ∷ [])))

module _ (pwd branch : Bytes) (v : Forall IsByte pwd) (w : Forall IsByte branch) where
  hook-precmd : find_string (precmd_body pwd branch) (codes "hook") ≡ some (codes "Precmd")
  unfolding key_here skip_spaces starts_with byte_is escape_bytes escape_byte
  hook-precmd =
      find_string-text (codes "hook") (codes "Precmd") (precmd_body pwd branch) 1 _ _ _
        (omega arith) refl refl refl (omega arith) refl refl

  pwd-precmd : find_string (precmd_body pwd branch) (codes "pwd") ≡ some pwd
  unfolding key_here skip_spaces starts_with byte_is
  pwd-precmd =
      find_string-text (codes "pwd") pwd (precmd_body pwd branch) 26 _ _ _ v refl refl refl
        (omega arith) refl refl

  branch_part-IsByte : Forall IsByte (branch_part branch)
  branch_part-IsByte =
      Forall-append IsByte (codes "\"git_branch\":") (b'"' ∷ string_rest branch b'}' (b'}' ∷ []))
        (omega arith) (omega arith, string_rest-IsByte branch b'}' (b'}' ∷ []) w (omega arith))

  precmd_body-IsByte : Forall IsByte (precmd_body pwd branch)
  precmd_body-IsByte =
      Forall-append IsByte precmd_head (b'"' ∷ string_rest pwd b',' (branch_part branch))
        (omega arith)
        (
          omega arith,
          string_rest-IsByte pwd b',' (branch_part branch) v (omega arith, branch_part-IsByte),
        )

  branch-found :
      find_from (codes "git_branch") 0 (precmd_body pwd branch)
      ≡ some (length (escape_bytes pwd) + 48)
  unfolding key_here skip_spaces starts_with byte_is
  branch-found =
      let key = codes "git_branch" in
      let n = length (escape_bytes pwd) in
      find_from-quiet key 32 0 (precmd_body pwd branch) refl
      ∙ find_from-string key pwd b',' 32 (branch_part branch) (plain) (omega arith) refl
      ∙ find_from-quiet key 1 (32 + n + 2) (b',' ∷ branch_part branch) refl
      ∙ find_from_hit key (32 + n + 2 + 1) b'"' _ refl (omega arith) refl
      ∙ ap some (omega arith)
    where
      plain : Plain (codes "git_branch")
      plain = omega arith

  branch-precmd : find_string (precmd_body pwd branch) (codes "git_branch") ≡ some branch
  unfolding find_string
  branch-precmd =
      let front = precmd_head ++ b'"' ∷ escape_bytes pwd in
      let back = b'"' ∷ b',' ∷ branch_part branch in
      let place : length (escape_bytes pwd) + 48 ≡ length front + 15 = omega arith in
      let there : drop (length (escape_bytes pwd) + 48) (precmd_body pwd branch)
          ≡ b'"' ∷ string_rest branch b'}' (b'}' ∷ []) =
        ap (λ k. drop k (precmd_body pwd branch)) place ∙ drop-append front back 15 in
      rw branch-found (ap read_at there ∙ read_at-escape_bytes branch (b'}' ∷ b'}' ∷ []) w)

  parse_body-precmd_body :
      from_utf8 pwd ≡ some pwd
      → from_utf8 branch ≡ some branch
      → parse_body (hex_of (precmd_body pwd branch))
        ≡ some (precmd (some pwd) (non_empty (some branch)))
  unfolding parse_body
  parse_body-precmd_body u x = rw (
    hex_decode-hex_of (precmd_body pwd branch) precmd_body-IsByte,
    hook-precmd,
    pwd-precmd,
    branch-precmd,
    u,
    x,
  )

-- The body that the shell side writes for a prompt is read back as its directory and its branch,
-- whatever UTF-8 is in them, so that no name of a directory can pass for a branch; an empty
-- branch is none. Of a newline at the end of either the shell side writes nothing, so that it is
-- missing.
pub parse_body-precmd :
    (pwd branch : Bytes)
    → Forall IsByte pwd
    → Forall IsByte branch
    → from_utf8 pwd ≡ some pwd
    → from_utf8 branch ≡ some branch
    → parse_body (hex_of (precmd_json pwd branch))
      ≡ some (precmd (some (chomp pwd)) (non_empty (some (chomp branch))))
parse_body-precmd pwd branch v w u x =
    parse_body-precmd_body (chomp pwd) (chomp branch) (chomp-IsByte pwd v) (chomp-IsByte branch w)
      (from_utf8-chomp pwd u) (from_utf8-chomp branch x)
