-- ===== src/Utf8/RoundTrip.antt =====
-- Encoding and then decoding gives the characters back.
use bed_term.Prelude.{
  ℕ, ◌≡◌, refl, true, none, some, List, [], ◌∷◌, ◌++◌, arith, ◌>>=◌, Bytes, Forall,
}
use bed_term.Utf8.{is_scalar, encode_utf8, decode, decode_utf8, from_utf8, chars, encode_all}

decode-encode_utf8 :
    (c : ℕ) (bs : Bytes)
    → is_scalar c ≡ true
    → decode none (encode_utf8 c ++ bs) ≡ (decode none bs >>= λ cs. some (c ∷ cs))
unfolding decode encode_utf8
decode-encode_utf8 c bs h = ground arith

decode_utf8-encode_all :
    (cs : List ℕ) → Forall (λ c. is_scalar c ≡ true) cs → decode_utf8 (encode_all cs) ≡ some cs
unfolding decode_utf8 encode_all
decode_utf8-encode_all [] h = unfold decode in refl
decode_utf8-encode_all (c ∷ cs) h =
    rw (decode-encode_utf8 c (encode_all cs) h.0, decode_utf8-encode_all cs h.1)

-- A string of scalar values is UTF-8, and has those values as its characters.
pub chars-encode_all :
    (cs : List ℕ)
    → Forall (λ c. is_scalar c ≡ true) cs
    → (from_utf8 (encode_all cs) ≡ some (encode_all cs)) × (chars (encode_all cs) ≡ cs)
unfolding from_utf8 chars
chars-encode_all cs h = ground (arith, decode_utf8-encode_all cs h)
