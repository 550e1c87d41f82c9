-- ===== src/Dcs/Hex.antt =====
-- `hex_decode` of dcs.rs, and the encoder `hex_of` of its tests, which the shell side's
-- `__bedterm_hex` agrees with.
pub mod RoundTrip
use bed_term.Prelude.{
  ℕ, ◌+◌, ◌-◌, ◌*◌, ◌/◌, ◌%◌, ◌&&◌, Option, none, some, [], ◌∷◌, ltb, leb, ◌==◌, if◌then◌else◌,
  Bytes, length, ◌>>=◌,
}

-- The closure `nibble`.
unfoldable pub nibble : ℕ → Option ℕ
nibble b =
    if leb b'0' b && leb b b'9'
    then some (b - b'0')
    else if leb b'a' b && leb b b'f'
    then some (b - b'a' + 10)
    else if leb b'A' b && leb b b'F'
    then some (b - b'A' + 10)
    else none

-- The loop over `input.chunks(2)`. The two nibbles share no bit, so `|` is a sum.
decode_pairs : Bytes → Option Bytes
unfolding nibble
decode_pairs [] = some []
decode_pairs (a ∷ []) = none
decode_pairs (a ∷ b ∷ rest) = do
  hi ← nibble a
  lo ← nibble b
  out ← decode_pairs rest
  some ((hi * 16 + lo) ∷ out)

unfoldable pub hex_decode : Bytes → Option Bytes
unfolding decode_pairs
hex_decode input = if length input % 2 == 0 then decode_pairs input else none

-- `{:x}` of a number below 16.
unfoldable pub hex_digit : ℕ → ℕ
hex_digit n = if ltb n 10 then b'0' + n else b'a' + (n - 10)

-- `write!(out, "{b:02x}")` for each byte.
unfoldable pub hex_of : Bytes → Bytes
unfolding hex_digit
hex_of [] = []
hex_of (b ∷ bs) = hex_digit (b / 16) ∷ hex_digit (b % 16) ∷ hex_of bs
