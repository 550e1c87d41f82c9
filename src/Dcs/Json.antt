-- ===== src/Dcs/Json.antt =====
-- The JSON scanner of dcs.rs: `find_value_start`, `read_json_string`, `find_int_in_value`, over
-- the decoded body of a frame. A position `start` in the body is a number, as in the source.
pub mod Escape
pub mod Search
pub mod Decimal
use bed_term.Prelude.Decimal.{is_ascii_digit, digits_value}
use bed_term.Prelude.{
  ℕ, zero, suc, ◌+◌, ◌*◌, ◌^◌, Bool, true, false, ◌&&◌, ◌||◌, Option, none, some, [], ◌∷◌, ◌++◌,
  ltb, leb, ◌==◌, if◌then◌else◌, ◌>>=◌, Bytes, length, get_elem?, drop,
}
use bed_term.Prelude.Int.{ℤ, pos, negsuc}
use bed_term.Utf8.{from_u32, encode_utf8}
use bed_term.Dcs.Hex.{nibble}

-- `bytes.starts_with(key)`.
unfoldable pub starts_with : Bytes → Bytes → Bool
starts_with bytes [] = true
starts_with [] (k ∷ ks) = false
starts_with (b ∷ bs) (k ∷ ks) = b == k && starts_with bs ks

-- `json[n] == c`, at a position that the loop's bound keeps inside.
unfoldable pub byte_is : Bytes → ℕ → ℕ → Bool
byte_is bytes n c = elim (get_elem? bytes n) [ none ↦ false | some b ↦ b == c ]

-- The four tests on `json[i..]`, of which `rest` is what follows its first byte `b`.
unfoldable pub key_here : Bytes → ℕ → Bytes → Bool
unfolding starts_with byte_is
key_here key b rest =
    b == b'"'
    && starts_with rest key
    && byte_is rest (length key) b'"'
    && byte_is rest (length key + 1) b':'

is_space : ℕ → Bool
is_space b = b == b' ' || b == b'\t' || b == b'\n' || b == b'\r'

-- How far the inner loop moves `start`.
unfoldable pub skip_spaces : Bytes → ℕ
unfolding is_space
skip_spaces [] = 0
skip_spaces (b ∷ bs) = let more = skip_spaces bs + 1 in if is_space b then more else 0

-- The outer loop at `i`, where `json[i..]` is the list.
unfoldable pub find_from : Bytes → ℕ → Bytes → Option ℕ
unfolding key_here skip_spaces
find_from key i [] = none
find_from key i (b ∷ rest) =
    let later = find_from key (i + 1) rest in
    if leb (length key + 3) (length (b ∷ rest))
    then if key_here key b rest
      then some (i + 3 + length key + skip_spaces (drop (length key + 2) rest))
      else later
    else none

unfoldable pub find_value_start : Bytes → Bytes → Option ℕ
unfolding find_from
find_value_start json key = find_from key 0 json

-- What one round of the loop of `read_json_string` does at the rest of the body: it ends the
-- string, gives up, or appends bytes and goes on.
pub data Piece : Type 0 where
  close : Piece
  bad : Piece
  more : Bytes → Bytes → Piece

-- `\uXXXX`, behind the `u`. The shifts of `code` by four bits do not meet the digits.
unicode : Bytes → Piece
unicode (a ∷ b ∷ c ∷ d ∷ rest) =
    let code = nibble a >>= λ x. nibble b >>= λ y.
    nibble c >>= λ z. nibble d >>= λ w. from_u32 (((x * 16 + y) * 16 + z) * 16 + w) in
    elim code [ none ↦ bad | some u ↦ more (encode_utf8 u) rest ]
unicode _ = bad

-- The match on `esc`, behind the backslash.
escape : Bytes → Piece
unfolding unicode
escape [] = bad
escape (e ∷ rest) =
    if e == b'"' || e == b'\\' || e == b'/'
    then more (e ∷ []) rest
    else if e == b'n'
    then more (b'\n' ∷ []) rest
    else if e == b'r'
    then more (b'\r' ∷ []) rest
    else if e == b't'
    then more (b'\t' ∷ []) rest
    else if e == b'b'
    then more (0x08 ∷ []) rest
    else if e == b'f'
    then more (0x0C ∷ []) rest
    else if e == b'u'
    then unicode rest
    else bad

next_piece : Bytes → Piece
unfolding escape
next_piece [] = bad
next_piece (b ∷ rest) =
    if b == b'"' then close else if b == b'\\' then escape rest else more (b ∷ []) rest

-- The loop. A round takes at least one byte, so the length of the rest is fuel enough.
read_loop : ℕ → Bytes → Bytes → Option Bytes
unfolding next_piece
read_loop zero out rest = none
read_loop (suc fuel) out rest = elim (next_piece rest) [
  | close ↦ some out
  | bad ↦ none
  | more piece rest' ↦ read_loop fuel (out ++ piece) rest'
]

-- At `json[start..]`.
pub read_at : Bytes → Option Bytes
unfolding read_loop
read_at [] = none
read_at (b ∷ rest) = if b == b'"' then read_loop (length rest) [] rest else none

unfoldable pub read_json_string : Bytes → ℕ → Option Bytes
unfolding read_at
read_json_string json start = read_at (drop start json)

-- `find_string`, and `find_string_in_value`, which has the same body.
unfoldable pub find_string : Bytes → Bytes → Option Bytes
unfolding find_value_start read_json_string
find_string json key = find_value_start json key >>= λ start. read_json_string json start

-- `json[start..end]`, the digits from `start` on.
digits_at : Bytes → Bytes
unfolding is_ascii_digit
digits_at [] = []
digits_at (b ∷ bs) = let ds = b ∷ digits_at bs in if is_ascii_digit b then ds else []

-- `parse::<i64>` of a text of digits: none on an empty text, and on a value that does not fit.
-- `digits` stands for `json[start..end]`, so `end == start` says that it is empty.
unfoldable pub parse_i64 : Bytes → Option ℕ
unfolding digits_value
parse_i64 [] = none
parse_i64 (d ∷ ds) = let n = digits_value 0 (d ∷ ds) in if ltb n (2 ^ 63) then some n else none

unfoldable pub negated : ℕ → ℤ
negated zero = pos 0
negated (suc n) = negsuc n

-- At `json[start..]`: an optional sign, then the digits.
pub int_at : Bytes → Option ℤ
unfolding digits_at parse_i64 negated
int_at [] = none
int_at (b ∷ rest) =
    if b == b'-'
    then (parse_i64 (digits_at rest) >>= λ n. some (negated n))
    else (parse_i64 (digits_at (b ∷ rest)) >>= λ n. some (pos n))

unfoldable pub find_int_in_value : Bytes → Bytes → Option ℤ
unfolding find_value_start int_at
find_int_in_value json key = find_value_start json key >>= λ start. int_at (drop start json)
