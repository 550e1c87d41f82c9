-- ===== src/Dcs/Json/Escape.antt =====
-- The escapes of the shell side (`__bedterm_json_escape` of bedterm-integration.sh), and that
-- `read_json_string` undoes them.
use bed_term.Prelude.{
  ℕ, zero, suc, ◌/◌, ◌%◌, ◌≤◌, ◌<◌, ◌≡◌, refl, some, [], ◌∷◌, ◌++◌, append-nil, append_assoc, arith,
  ltb, ◌==◌, if◌then◌else◌, Bytes, length, length-append, Forall, Forall-append, IsByte,
}
use bed_term.Utf8.{from_u32, encode_utf8}
use bed_term.Dcs.Hex.{nibble, hex_digit}
use bed_term.Dcs.Json.{more, next_piece, read_loop, read_at}

abbrev backslashed : ℕ → Bytes
backslashed c = b'\\' ∷ c ∷ []

-- The table `esc` of the shell function, at a byte.
unfoldable pub escape_byte : ℕ → Bytes
escape_byte o =
    if o == 8
    then backslashed b'b'
    else if o == 9
    then backslashed b't'
    else if o == 10
    then backslashed b'n'
    else if o == 12
    then backslashed b'f'
    else if o == 13
    then backslashed b'r'
    else if o == b'"'
    then backslashed b'"'
    else if o == b'\\'
    then backslashed b'\\'
    else if ltb o 32
    then b'\\' ∷ b'u' ∷ b'0' ∷ b'0' ∷ hex_digit (o / 16) ∷ hex_digit (o % 16) ∷ []
    else o ∷ []

-- The records of a text, joined by the newlines that stood between them.
unfoldable pub escape_bytes : Bytes → Bytes
escape_bytes [] = []
escape_bytes (o ∷ os) = escape_byte o ++ escape_bytes os

-- `awk` takes a newline at the end of its input for the end of the last record and not for the
-- start of another one, so that the shell function does not print it.
unfoldable pub chomp : Bytes → Bytes
chomp [] = []
chomp (o ∷ []) = if o == 10 then [] else o ∷ []
chomp (o ∷ c ∷ os) = o ∷ chomp (c ∷ os)

abbrev pub json_escape : Bytes → Bytes
json_escape s = escape_bytes (chomp s)

-- A JSON string that the shell side writes, and what follows it.
abbrev pub json_string : Bytes → Bytes → Bytes
json_string s rest = b'"' ∷ (json_escape s ++ (b'"' ∷ rest))

pub chomp-IsByte : (s : Bytes) → Forall IsByte s → Forall IsByte (chomp s)
unfolding chomp
chomp-IsByte [] h = tt
chomp-IsByte (o ∷ []) h = ground (arith, h.0)
chomp-IsByte (o ∷ c ∷ os) h = (h.0, chomp-IsByte (c ∷ os) h.1)

next_piece-escape_byte :
    (o : ℕ) (rest : Bytes) → o < 256 → next_piece (escape_byte o ++ rest) ≡ more (o ∷ []) rest
unfolding next_piece escape_byte nibble hex_digit from_u32 encode_utf8
next_piece-escape_byte o rest h = ground arith

length-escape_byte : (o : ℕ) → 1 ≤ length (escape_byte o)
unfolding escape_byte
length-escape_byte o = ground arith

length-escape_bytes : (s : Bytes) → length s ≤ length (escape_bytes s)
unfolding escape_bytes
length-escape_bytes [] = omega arith
length-escape_bytes (o ∷ os) = omega (
  arith,
  length-append (escape_byte o) (escape_bytes os),
  length-escape_bytes os,
  length-escape_byte o,
)

read_loop-escape_bytes :
    (s : Bytes) (fuel : ℕ) (out rest : Bytes)
    → Forall IsByte s
    → length s < fuel
    → read_loop fuel out (escape_bytes s ++ b'"' ∷ rest) ≡ some (out ++ s)
unfolding read_loop escape_bytes
read_loop-escape_bytes s zero out rest h k = absurd (omega arith)
read_loop-escape_bytes [] (suc fuel) out rest h k = rw append-nil (unfold next_piece in refl)
read_loop-escape_bytes (o ∷ os) (suc fuel) out rest h k =
    rw (append_assoc, next_piece-escape_byte o (escape_bytes os ++ b'"' ∷ rest) h.0, read_loop)
      (rw (read_loop-escape_bytes os fuel (out ++ o ∷ []) rest h.1 (omega arith), append_assoc))

-- A JSON string of escaped bytes is read back as these bytes, whatever they are and whatever follows
-- it.
pub read_at-escape_bytes :
    (s rest : Bytes) → Forall IsByte s → read_at (b'"' ∷ escape_bytes s ++ b'"' ∷ rest) ≡ some s
unfolding read_at
read_at-escape_bytes s rest h =
    read_loop-escape_bytes s _ [] rest h
      (omega (arith, length-append (escape_bytes s) (b'"' ∷ rest), length-escape_bytes s))

escape_byte-IsByte : (o : ℕ) → o < 256 → Forall IsByte (escape_byte o)
unfolding escape_byte hex_digit
escape_byte-IsByte o h = ground arith

pub escape_bytes-IsByte : (s : Bytes) → Forall IsByte s → Forall IsByte (escape_bytes s)
unfolding escape_bytes
escape_bytes-IsByte [] h = tt
escape_bytes-IsByte (o ∷ os) h =
    Forall-append IsByte (escape_byte o) (escape_bytes os) (escape_byte-IsByte o h.0)
      (escape_bytes-IsByte os h.1)
