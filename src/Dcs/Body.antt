-- ===== src/Dcs/Body.antt =====
-- `DcsEvent` and `parse_body` of dcs.rs: the hexadecimal body of a frame as an event.
pub mod Keys
pub mod Preexec
pub mod Precmd
pub mod Finished
use bed_term.Prelude.{
  Bool, true, false, ◌&&◌, Option, none, some, [], ◌∷◌, ◌==◌, if◌then◌else◌, ◌>>=◌, Bytes,
}
use bed_term.Prelude.Int.{ℤ, wrap_i32}
use bed_term.Prelude.Text.{codes}
use bed_term.Utf8.{from_utf8}
use bed_term.Dcs.Hex.{hex_decode}
use bed_term.Dcs.Json.{find_string, find_int_in_value}

pub data DcsEvent : Type 0 where
  precmd : Option Bytes → Option Bytes → DcsEvent
  preexec : Bytes → DcsEvent
  command_finished : ℤ → DcsEvent

-- `hook.as_slice()` against a literal.
bytes_eq : Bytes → Bytes → Bool
bytes_eq [] [] = true
bytes_eq (x ∷ xs) (y ∷ ys) = x == y && bytes_eq xs ys
bytes_eq _ _ = false

-- `find_string_in_value(..).and_then(|b| String::from_utf8(b).ok())`.
text_value : Bytes → Bytes → Option Bytes
unfolding find_string from_utf8
text_value json key = find_string json key >>= from_utf8

-- `.filter(|s| !s.is_empty())`.
unfoldable pub non_empty : Option Bytes → Option Bytes
non_empty (some []) = none
non_empty o = o

unwrap_or_default : Option Bytes → Bytes
unwrap_or_default none = []
unwrap_or_default (some s) = s

-- The match on the hook.
dispatch : Bytes → Bytes → Option DcsEvent
unfolding bytes_eq text_value non_empty unwrap_or_default find_int_in_value
dispatch json hook =
    if bytes_eq hook (codes "Precmd")
    then some
        (precmd (text_value json (codes "pwd")) (non_empty (text_value json (codes "git_branch"))))
    else if bytes_eq hook (codes "Preexec")
    then some (preexec (unwrap_or_default (text_value json (codes "command"))))
    else if bytes_eq hook (codes "CommandFinished")
    then (find_int_in_value json (codes "exit_code") >>= λ n. some (command_finished (wrap_i32 n)))
    else none

unfoldable pub parse_body : Bytes → Option DcsEvent
unfolding dispatch hex_decode
parse_body body = do
  json ← hex_decode body
  hook ← find_string json (codes "hook")
  dispatch json hook
