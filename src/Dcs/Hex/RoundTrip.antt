-- ===== src/Dcs/Hex/RoundTrip.antt =====
-- The hexadecimal decoder reads back what the encoder writes, and accepts nothing else but the
-- upper-case spelling.
use bed_term.Prelude.{
  ℕ, ◌+◌, ◌*◌, ◌/◌, ◌%◌, ◌<◌, ◌≡◌, refl, ◌&&◌, some, [], ◌∷◌, map, arith, leb, if◌then◌else◌,
  >>=-eq-some, Bytes, length, Forall, IsByte,
}
use bed_term.Dcs.Hex.{nibble, decode_pairs, hex_decode, hex_digit, hex_of}

nibble-hex_digit : (n : ℕ) → n < 16 → nibble (hex_digit n) ≡ some n
unfolding nibble hex_digit
nibble-hex_digit n h = ground arith

decode_pairs-hex_of : (bs : Bytes) → Forall IsByte bs → decode_pairs (hex_of bs) ≡ some bs
unfolding decode_pairs hex_of
decode_pairs-hex_of [] h = refl
decode_pairs-hex_of (b ∷ bs) h = ground (
  arith,
  nibble-hex_digit (b / 16) (omega arith),
  nibble-hex_digit (b % 16) (omega arith),
  decode_pairs-hex_of bs h.1,
)

pub length-hex_of : (bs : Bytes) → length (hex_of bs) ≡ 2 * length bs
unfolding hex_of
length-hex_of [] = omega arith
length-hex_of (b ∷ bs) = omega (arith, length-hex_of bs)

-- `hex_decode` reads back every sequence of bytes from its hexadecimal text.
pub hex_decode-hex_of : (bs : Bytes) → Forall IsByte bs → hex_decode (hex_of bs) ≡ some bs
unfolding hex_decode
hex_decode-hex_of bs h = ground (arith, length-hex_of bs, decode_pairs-hex_of bs h)

-- The lower-case form of a digit.
abbrev pub lower : ℕ → ℕ
lower c = if leb b'A' c && leb c b'F' then c + 32 else c

nibble-lower : (c n : ℕ) → nibble c ≡ some n → (lower c ≡ hex_digit n) × (n < 16)
unfolding nibble hex_digit
nibble-lower c n h = ground arith

hex_of-pair :
    (hi lo : ℕ) (out : Bytes)
    → hi < 16
    → lo < 16
    → hex_of ((hi * 16 + lo) ∷ out) ≡ hex_digit hi ∷ hex_digit lo ∷ hex_of out
unfolding hex_of
hex_of-pair hi lo out h k =
    let p : (hi * 16 + lo) / 16 ≡ hi = omega arith in
    let q : (hi * 16 + lo) % 16 ≡ lo = omega arith in rw (p, q)

-- What a successful decoding says of its input.
abbrev pub Decoded : Bytes → Bytes → Type 0
Decoded input out = (map lower input ≡ hex_of out) × Forall IsByte out

decode_pairs-Decoded :
    (input : Bytes) {out : Bytes} → decode_pairs input ≡ some out → Decoded input out
unfolding decode_pairs
decode_pairs-Decoded [] h = ground (arith, hex_of-nil)
  where
    hex_of-nil : hex_of [] ≡ []
    hex_of-nil = unfold hex_of in refl
decode_pairs-Decoded (a ∷ []) h = cc
decode_pairs-Decoded (a ∷ b ∷ rest) h =
    let (hi, eh, h') = >>=-eq-some (nibble a) _ h in
    let (lo, el, h'') = >>=-eq-some (nibble b) _ h' in
    let (out', er, e) = >>=-eq-some (decode_pairs rest) _ h'' in
    let ih = decode_pairs-Decoded rest er in
    let x = nibble-lower a hi eh in
    let y = nibble-lower b lo el in ground (arith, ih, x, y, e, hex_of-pair hi lo out' x.1 y.1)

-- A text that `hex_decode` accepts is, letter case aside, the encoding of the bytes that it
-- returns.
pub hex_decode-Decoded : (input out : Bytes) → hex_decode input ≡ some out → Decoded input out
unfolding hex_decode
hex_decode-Decoded input out h = ground (arith, decode_pairs-Decoded input {out = out})
