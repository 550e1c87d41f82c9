-- ===== src/ConnectForm/Base64/RoundTrip.antt =====
-- What base64_decode of rust-core/bedterm-ios/src/connect_form_vm.rs makes of base64_encode's output.
use bed_term.Prelude.{
  ℕ, zero, suc, ◌+◌, ◌*◌, ◌/◌, ◌%◌, ◌≤◌, ◌<◌, min, ◌≡◌, refl, Bool, true, false, not, ◌&&◌, Option,
  none, some, [], ◌∷◌, arith, ◌==◌, Bytes, length, Forall, IsByte,
}
use bed_term.Prelude.Text.{is_empty, is_ascii_whitespace}
use bed_term.ConnectForm.Base64.{
  or_zero, sextet_char, base64_encode, sextet_value, strip_whitespace, trailing_pads, pad_or_value,
  decode_chunk, decode_chunks, decoded, or_invalid, decode_clean, base64_decode,
}

-- The numbers below `n` pass the test.
passes_below : (ℕ → Bool) → ℕ → Bool
passes_below p zero = true
passes_below p (suc n) = p n && passes_below p n

passes_below→true : (p : ℕ → Bool) (n : ℕ) → passes_below p n ≡ true → (i : ℕ) → i < n → p i ≡ true
unfolding passes_below
passes_below→true p zero e i h = absurd (omega arith)
passes_below→true p (suc n) e i h = ground (arith, passes_below→true p n (ground arith) i)

abbrev is_value : Option ℕ → ℕ → Bool
is_value none n = false
is_value (some m) n = m == n

-- What is to hold of the character for `n`.
char_fits : ℕ → Bool
unfolding sextet_char sextet_value or_zero
char_fits n =
    let c = sextet_char n in
    is_value (sextet_value c) n && (not (c == 61) && not (is_ascii_whitespace c))

char_fits_lem : (n : ℕ) → n < 64 → char_fits n ≡ true
unfolding passes_below char_fits
char_fits_lem = passes_below→true char_fits 64 refl

sextet_char_mod : (n : ℕ) → sextet_char n ≡ sextet_char (n % 64)
unfolding sextet_char
sextet_char_mod n = let e : n % 64 % 64 ≡ n % 64 = omega arith in rw e refl

record IsSextet (n c : ℕ) : Type 0 where
  value : sextet_value c ≡ some (n % 64)
  no_pad : (c == 61) ≡ false
  no_space : is_ascii_whitespace c ≡ false

is_value→eq : (o : Option ℕ) (n : ℕ) → is_value o n ≡ true → o ≡ some n
is_value→eq none n h = cc
is_value→eq (some m) n h = ground arith

fits-IsSextet : (n c : ℕ) → c ≡ sextet_char (n % 64) → IsSextet n c
fits-IsSextet n c e =
    let h = char_fits_lem (n % 64) (omega arith) in
    unfold char_fits in
    record {
      value = ground (arith, is_value→eq (sextet_value c) (n % 64));
      no_pad = ground arith;
      no_space = ground arith;
    }

sextet_char-IsSextet : (n : ℕ) → IsSextet n (sextet_char n)
sextet_char-IsSextet n = fits-IsSextet n (sextet_char n) (sextet_char_mod n)

-- The chunks of three bytes, of two and of one.
decode_chunk_three :
    (a b c p q r s : ℕ)
    → a < 256
    → b < 256
    → c < 256
    → IsSextet ((a * 65536 + b * 256 + c) / 262144) p
    → IsSextet ((a * 65536 + b * 256 + c) / 4096) q
    → IsSextet ((a * 65536 + b * 256 + c) / 64) r
    → IsSextet (a * 65536 + b * 256 + c) s
    → decode_chunk p q r s ≡ some (a ∷ b ∷ c ∷ [])
unfolding decode_chunk pad_or_value
decode_chunk_three a b c p q r s ha hb hc hp hq hr hs =
    rw (hr.no_pad, hs.no_pad, hp.value, hq.value, hr.value, hs.value) (ground arith)

decode_chunk_two :
    (a b p q r : ℕ)
    → a < 256
    → b < 256
    → IsSextet ((a * 65536 + b * 256) / 262144) p
    → IsSextet ((a * 65536 + b * 256) / 4096) q
    → IsSextet ((a * 65536 + b * 256) / 64) r
    → decode_chunk p q r 61 ≡ some (a ∷ b ∷ [])
unfolding decode_chunk pad_or_value
decode_chunk_two a b p q r ha hb hp hq hr =
    rw (hr.no_pad, hp.value, hq.value, hr.value) (ground arith)

decode_chunk_one :
    (a p q : ℕ)
    → a < 256
    → IsSextet (a * 65536 / 262144) p
    → IsSextet (a * 65536 / 4096) q
    → decode_chunk p q 61 61 ≡ some (a ∷ [])
unfolding decode_chunk pad_or_value
decode_chunk_one a p q ha hp hq = rw (hp.value, hq.value) (ground arith)

decode_chunks-base64_encode :
    (bytes : Bytes) → Forall IsByte bytes → decode_chunks (base64_encode bytes) ≡ some bytes
unfolding decode_chunks base64_encode
decode_chunks-base64_encode [] h = refl
decode_chunks-base64_encode (a ∷ []) h =
    let n = a * 65536 in
    rw
      (decode_chunk_one a _ _ h.0 (sextet_char-IsSextet (n / 262144))
        (sextet_char-IsSextet (n / 4096)))
      refl
decode_chunks-base64_encode (a ∷ b ∷ []) h =
    let n = a * 65536 + b * 256 in
    rw
      (decode_chunk_two a b _ _ _ h.0 h.1.0 (sextet_char-IsSextet (n / 262144))
        (sextet_char-IsSextet (n / 4096)) (sextet_char-IsSextet (n / 64)))
      refl
decode_chunks-base64_encode (a ∷ b ∷ c ∷ rest) h =
    let n = a * 65536 + b * 256 + c in
    rw
      (
        decode_chunk_three a b c _ _ _ _ h.0 h.1.0 h.1.1.0 (sextet_char-IsSextet (n / 262144))
            (sextet_char-IsSextet (n / 4096)) (sextet_char-IsSextet (n / 64))
            (sextet_char-IsSextet n),
        decode_chunks-base64_encode rest h.1.1.1,
      )
      refl

strip_whitespace-base64_encode :
    (bytes : Bytes) → strip_whitespace (base64_encode bytes) ≡ base64_encode bytes
unfolding strip_whitespace base64_encode
strip_whitespace-base64_encode [] = refl
strip_whitespace-base64_encode (a ∷ []) =
    let n = a * 65536 in
    rw ((sextet_char-IsSextet (n / 262144)).no_space, (sextet_char-IsSextet (n / 4096)).no_space)
      refl
strip_whitespace-base64_encode (a ∷ b ∷ []) =
    let n = a * 65536 + b * 256 in
    rw
      (
        (sextet_char-IsSextet (n / 262144)).no_space,
        (sextet_char-IsSextet (n / 4096)).no_space,
        (sextet_char-IsSextet (n / 64)).no_space,
      )
      refl
strip_whitespace-base64_encode (a ∷ b ∷ c ∷ rest) =
    let n = a * 65536 + b * 256 + c in
    rw
      (
        (sextet_char-IsSextet (n / 262144)).no_space,
        (sextet_char-IsSextet (n / 4096)).no_space,
        (sextet_char-IsSextet (n / 64)).no_space,
        (sextet_char-IsSextet n).no_space,
        strip_whitespace-base64_encode rest,
      )
      refl

-- Whole chunks, and at most two pads at the end, unless there is nothing.
record IsWhole (s : Bytes) : Type 0 where
  chunks : length s % 4 ≡ 0
  pads : trailing_pads s ≤ min 2 (length s / 4 * 3)

base64_encode-IsWhole : (bytes : Bytes) → IsWhole (base64_encode bytes)
unfolding trailing_pads base64_encode
base64_encode-IsWhole [] = ground arith
base64_encode-IsWhole (a ∷ []) =
    let n = a * 65536 in
    ground (arith, sextet_char-IsSextet (n / 262144), sextet_char-IsSextet (n / 4096))
base64_encode-IsWhole (a ∷ b ∷ []) =
    let n = a * 65536 + b * 256 in
    ground (
      arith,
      sextet_char-IsSextet (n / 262144),
      sextet_char-IsSextet (n / 4096),
      sextet_char-IsSextet (n / 64),
    )
base64_encode-IsWhole (a ∷ b ∷ c ∷ rest) =
    let n = a * 65536 + b * 256 + c in
    ground (
      arith,
      sextet_char-IsSextet (n / 262144),
      sextet_char-IsSextet (n / 4096),
      sextet_char-IsSextet (n / 64),
      sextet_char-IsSextet n,
      base64_encode-IsWhole rest,
    )

decode_clean-base64_encode :
    (bytes : Bytes) → Forall IsByte bytes → decode_clean (base64_encode bytes) ≡ decoded bytes
unfolding decode_clean or_invalid
decode_clean-base64_encode bytes h =
    ground (arith, decode_chunks-base64_encode bytes h, base64_encode-IsWhole bytes)

is_empty-base64_encode : (a : ℕ) (rest : Bytes) → is_empty (base64_encode (a ∷ rest)) ≡ false
unfolding base64_encode
is_empty-base64_encode a [] = refl
is_empty-base64_encode a (b ∷ []) = refl
is_empty-base64_encode a (b ∷ c ∷ rest) = refl

-- The decoder reads back every sequence of bytes from the text of the encoder.
pub base64_decode-base64_encode :
    (bytes : Bytes) → Forall IsByte bytes → base64_decode (base64_encode bytes) ≡ decoded bytes
unfolding base64_decode
base64_decode-base64_encode [] h = unfold base64_encode in refl
base64_decode-base64_encode (a ∷ rest) h =
    rw (strip_whitespace-base64_encode (a ∷ rest), is_empty-base64_encode a rest)
      (decode_clean-base64_encode (a ∷ rest) h)
