-- ===== src/ConnectForm/Base64.antt =====
-- `base64_encode` and `base64_decode` of rust-core/bedterm-ios/src/connect_form_vm.rs. A `|` of numbers
-- that share no bit is a sum.
pub mod RoundTrip
pub mod Pads
use bed_term.Prelude.{
  ℕ, suc, ◌+◌, ◌-◌, ◌*◌, ◌/◌, ◌%◌, ◌&&◌, Option, none, some, List, [], ◌∷◌, ◌++◌, ltb, leb, ◌==◌,
  if◌then◌else◌, Bytes, length, get_elem?, ◌>>=◌,
}
use bed_term.Prelude.Text.{codes, is_empty, is_ascii_whitespace}

abbrev pub base64_table : List ℕ
base64_table = codes "ABCDEFGHIJKLMNOPQRSTUVWXYZabcdefghijklmnopqrstuvwxyz0123456789+/"

or_zero : Option ℕ → ℕ
or_zero none = 0
or_zero (some c) = c

-- `TABLE[(n & 0x3F) as usize]`, which is in range.
unfoldable pub sextet_char : ℕ → ℕ
unfolding or_zero
sextet_char n = or_zero (get_elem? base64_table (n % 64))

-- 61 is `=`.
unfoldable pub base64_encode : Bytes → Bytes
base64_encode [] = []
base64_encode (a ∷ []) =
    let n = a * 65536 in sextet_char (n / 262144) ∷ sextet_char (n / 4096) ∷ 61 ∷ 61 ∷ []
base64_encode (a ∷ b ∷ []) =
    let n = a * 65536 + b * 256 in
    sextet_char (n / 262144) ∷ sextet_char (n / 4096) ∷ sextet_char (n / 64) ∷ 61 ∷ []
base64_encode (a ∷ b ∷ c ∷ rest) =
    let n = a * 65536 + b * 256 + c in
    sextet_char (n / 262144)
    ∷ sextet_char (n / 4096)
    ∷ sextet_char (n / 64)
    ∷ sextet_char n
    ∷ base64_encode rest

-- The closure `table`.
unfoldable pub sextet_value : ℕ → Option ℕ
sextet_value c =
    if leb b'A' c && leb c b'Z'
    then some (c - b'A')
    else if leb b'a' c && leb c b'z'
    then some (c - b'a' + 26)
    else if leb b'0' c && leb c b'9'
    then some (c - b'0' + 52)
    else if c == b'+'
    then some 62
    else if c == b'/'
    then some 63
    else none

unfoldable pub strip_whitespace : Bytes → Bytes
strip_whitespace [] = []
strip_whitespace (c ∷ cs) =
    let later = strip_whitespace cs in if is_ascii_whitespace c then later else c ∷ later

-- `rev().take_while(|&c| c == '=').count()`.
unfoldable pub trailing_pads : Bytes → ℕ
trailing_pads [] = 0
trailing_pads (c ∷ cs) = let n = trailing_pads cs in if c == 61 && n == length cs then suc n else n

pad_or_value : ℕ → Option ℕ
unfolding sextet_value
pad_or_value c = if c == 61 then some 0 else sextet_value c

-- The round of the loop on one chunk: what it pushes.
unfoldable pub decode_chunk : ℕ → ℕ → ℕ → ℕ → Option Bytes
unfolding sextet_value pad_or_value
decode_chunk c₀ c₁ c₂ c₃ = do
  a ← sextet_value c₀
  b ← sextet_value c₁
  c ← pad_or_value c₂
  d ← pad_or_value c₃
  some (
      (a * 4 + b / 16)
      ∷ ((if c₂ == 61 then [] else (b % 16 * 16 + c / 4) ∷ [])
          ++ (if c₃ == 61 then [] else (c % 4 * 64 + d) ∷ [])))

-- The loop over `chunks(4)`.
unfoldable pub decode_chunks : Bytes → Option Bytes
decode_chunks [] = some []
decode_chunks (c₀ ∷ c₁ ∷ c₂ ∷ c₃ ∷ rest) = do
  front ← decode_chunk c₀ c₁ c₂ c₃
  back ← decode_chunks rest
  some (front ++ back)
decode_chunks _ = none

-- `panics` is a panic of the subtraction or of the allocation it is for.
pub data Decoded : Type 0 where
  panics : Decoded
  invalid : Decoded
  decoded : Bytes → Decoded

pub or_invalid : Option Bytes → Decoded
or_invalid none = invalid
or_invalid (some bytes) = decoded bytes

-- `out_len` is the length without the padding, in `usize`: where the padding is longer, the
-- subtraction panics in a debug build, and in a release build it wraps to a capacity that no
-- allocation can have.
unfoldable pub decode_clean : Bytes → Decoded
unfolding or_invalid
decode_clean clean =
    if length clean % 4 == 0
    then if ltb (length clean / 4 * 3) (trailing_pads clean)
      then panics
      else or_invalid (decode_chunks clean)
    else invalid

unfoldable pub base64_decode : Bytes → Decoded
base64_decode s = if is_empty s then decoded [] else decode_clean (strip_whitespace s)
