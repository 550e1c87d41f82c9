-- ===== src/Dcs/Body/Keys.antt =====
-- How the scanner of a body finds the value of a key in a text that the shell side wrote.
use bed_term.Prelude.{
  ℕ, ◌+◌, ◌≤◌, ◌≡◌, ap, ◌∙◌, true, some, ◌∷◌, ◌++◌, arith, Bytes, length, drop, Forall,
  Forall-append, IsByte,
}
use bed_term.Dcs.Json.{key_here, skip_spaces, find_from, read_at, find_string}
use bed_term.Dcs.Json.Escape.{escape_bytes, read_at-escape_bytes, escape_bytes-IsByte}
use bed_term.Dcs.Json.Search.{quiet, find_from-quiet, find_from_hit, string_rest}

-- A key that stands behind `n` quiet places gives the value behind its colon.
find_string-at :
    (key json : Bytes) (n b : ℕ) (rest : Bytes)
    → quiet key n json ≡ true
    → drop n json ≡ b ∷ rest
    → key_here key b rest ≡ true
    → length key + 2 ≤ length rest
    → skip_spaces (drop (length key + 2) rest) ≡ 0
    → find_string json key ≡ read_at (drop (n + 3 + length key) json)
unfolding find_string
find_string-at key json n b rest q d e h k =
    let found : find_from key 0 json ≡ some (n + 3 + length key) =
      find_from-quiet key n 0 json q
      ∙ ap (find_from key (0 + n)) d
      ∙ find_from_hit key (0 + n) b rest e h k
      ∙ ap some (omega arith) in
    rw found

-- So a written string that stands there is read back.
pub find_string-text :
    (key s json : Bytes) (n b : ℕ) (rest after : Bytes)
    → Forall IsByte s
    → quiet key n json ≡ true
    → drop n json ≡ b ∷ rest
    → key_here key b rest ≡ true
    → length key + 2 ≤ length rest
    → skip_spaces (drop (length key + 2) rest) ≡ 0
    → drop (n + 3 + length key) json ≡ b'"' ∷ escape_bytes s ++ b'"' ∷ after
    → find_string json key ≡ some s
find_string-text key s json n b rest after v q d e h k t =
    find_string-at key json n b rest q d e h k ∙ ap read_at t ∙ read_at-escape_bytes s after v

pub string_rest-IsByte :
    (s : Bytes) (c : ℕ) (rest : Bytes)
    → Forall IsByte s
    → Forall IsByte (c ∷ rest)
    → Forall IsByte (string_rest s c rest)
string_rest-IsByte s c rest h k =
    Forall-append IsByte (escape_bytes s) (b'"' ∷ c ∷ rest) (escape_bytes-IsByte s h)
      (omega arith, k)
