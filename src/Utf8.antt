-- ===== src/Utf8.antt =====
-- The UTF-8 of Rust's standard library, as dcs.rs and cli_agent.rs use it: `char::encode_utf8`,
-- `char::from_u32`, `String::from_utf8` and `str::chars`. A `String` is the list of its bytes.
pub mod RoundTrip
pub mod Chomp
use bed_term.Prelude.{
  ℕ, ◌+◌, ◌-◌, ◌*◌, ◌/◌, ◌%◌, Bool, ◌&&◌, ◌||◌, Option, none, some, List, [], ◌∷◌, ◌++◌, ltb, leb,
  ◌==◌, if◌then◌else◌, ◌>>=◌, is_some, Bytes,
}

-- A Unicode scalar value: no surrogate, and at most U+10FFFF.
abbrev pub is_scalar : ℕ → Bool
is_scalar c = ltb c 0xD800 || (ltb 0xDFFF c && leb c 0x10FFFF)

unfoldable pub from_u32 : ℕ → Option ℕ
from_u32 c = if is_scalar c then some c else none

unfoldable pub encode_utf8 : ℕ → Bytes
encode_utf8 c =
    if ltb c 0x80
    then c ∷ []
    else if ltb c 0x800
    then (0xC0 + c / 64) ∷ (0x80 + c % 64) ∷ []
    else if ltb c 0x10000
    then (0xE0 + c / 4096) ∷ (0x80 + c / 64 % 64) ∷ (0x80 + c % 64) ∷ []
    else (0xF0 + c / 262144) ∷ (0x80 + c / 4096 % 64) ∷ (0x80 + c / 64 % 64) ∷ (0x80 + c % 64) ∷ []

-- Where a decoder stands: `need` continuation bytes are missing from a character whose bits so far
-- are `bits`, and whose code must be at least `least`.
pub record Partial : Type 0 where
  pub need : ℕ
  pub bits : ℕ
  pub least : ℕ

-- A byte ends a character, goes on with one, or is refused.
pub data Step : Type 0 where
  done : ℕ → Step
  wait : Partial → Step
  refuse : Step

lead : ℕ → Step
lead b =
    if ltb b 0x80
    then done b
    else if leb 0xC2 b && leb b 0xDF
    then wait (record { need = 1; bits = b - 0xC0; least = 0x80 })
    else if leb 0xE0 b && leb b 0xEF
    then wait (record { need = 2; bits = b - 0xE0; least = 0x800 })
    else if leb 0xF0 b && leb b 0xF4
    then wait (record { need = 3; bits = b - 0xF0; least = 0x10000 })
    else refuse

continuation : Partial → ℕ → Step
continuation p b =
    let bits = p.bits * 64 + (b - 0x80) in
    if leb 0x80 b && leb b 0xBF
    then if p.need == 1
      then if leb p.least bits && is_scalar bits then done bits else refuse
      else wait (record { need = p.need - 1; bits = bits; least = p.least })
    else refuse

step : Option Partial → ℕ → Step
unfolding lead continuation
step none b = lead b
step (some p) b = continuation p b

-- The characters of a byte string, `none` where it is not UTF-8.
decode : Option Partial → Bytes → Option (List ℕ)
unfolding step
decode none [] = some []
decode (some p) [] = none
decode s (b ∷ bs) = elim (step s b) [
  | done c ↦ decode none bs >>= λ cs. some (c ∷ cs)
  | wait p ↦ decode (some p) bs
  | refuse ↦ none
]

unfoldable pub decode_utf8 : Bytes → Option (List ℕ)
unfolding decode
decode_utf8 = decode none

unfoldable pub from_utf8 : Bytes → Option Bytes
from_utf8 bs = if is_some (decode_utf8 bs) then some bs else none

-- `s.chars()`: total on a `String`, which is UTF-8.
unfoldable pub chars : Bytes → List ℕ
chars bs = elim (decode_utf8 bs) [ none ↦ [] | some cs ↦ cs ]

unfoldable pub encode_all : List ℕ → Bytes
encode_all [] = []
encode_all (c ∷ cs) = encode_utf8 c ++ encode_all cs
