-- ===== src/ConnectForm/Base64/Pads.antt =====
-- Texts that base64_decode of rust-core/bedterm-ios/src/connect_form_vm.rs does not survive.
use bed_term.Prelude.{ℕ, zero, suc, ◌+◌, ◌*◌, ◌≡◌, refl, ap, [], ◌∷◌, arith, Bytes, length}
use bed_term.ConnectForm.Base64.{
  strip_whitespace, trailing_pads, panics, decode_clean, base64_decode,
}

-- `n` times `=`.
abbrev pub pads : ℕ → Bytes
pads zero = []
pads (suc n) = 61 ∷ pads n

length-pads : (n : ℕ) → length (pads n) ≡ n
length-pads zero = refl
length-pads (suc n) = ap suc (length-pads n)

trailing_pads-pads : (n : ℕ) → trailing_pads (pads n) ≡ n
unfolding trailing_pads
trailing_pads-pads zero = refl
trailing_pads-pads (suc n) = ground (arith, trailing_pads-pads n, length-pads n)

strip_whitespace-pads : (n : ℕ) → strip_whitespace (pads n) ≡ pads n
unfolding strip_whitespace
strip_whitespace-pads zero = refl
strip_whitespace-pads (suc n) = ap (◌∷◌ 61) (strip_whitespace-pads n)

-- On a text of nothing but `=`, as many as a positive multiple of four, the decoder does not
-- answer that the text is invalid but panics.
pub base64_decode-pads : (n : ℕ) → base64_decode (pads (4 * n + 4)) ≡ panics
unfolding base64_decode decode_clean
base64_decode-pads n =
    let e : 4 * n + 4 ≡ suc (4 * n + 3) = omega arith in
    rw (strip_whitespace-pads (4 * n + 4), trailing_pads-pads (4 * n + 4), length-pads (4 * n + 4))
      (rw e (ground arith))
