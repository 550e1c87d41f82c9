-- ===== src/Blocks/Capture.antt =====
-- The capture of a block's output: what is kept of it under the limit on lines.
use bed_term.Prelude.{
  ℕ, suc, ◌+◌, ◌%◌, ◌^◌, ◌≤◌, ◌<◌, ◌≡◌, refl, sym, ap, subst, ◌∙◌, ◌⊎◌, inl, inr, [], ◌∷◌, ◌++◌,
  append-nil, append_assoc, arith, leb, ◌==◌, if◌then◌else◌, Bool-cases, Bytes, length, take,
}
use bed_term.Alacritty.{Emulator}
use bed_term.Blocks.{max_block_output_lines, append_capped, Block, append_output_bytes}

-- The number of newlines in a capture.
abbrev pub newlines : Bytes → ℕ
newlines [] = 0
newlines (b ∷ bs) = if b == 0x0A then newlines bs + 1 else newlines bs

append_capped-full :
    (buf : Bytes) (lines : ℕ) (bs : Bytes)
    → max_block_output_lines ≤ lines
    → append_capped buf lines bs ≡ (buf, lines)
unfolding append_capped
append_capped-full buf lines [] h = refl
append_capped-full buf lines (b ∷ bs) h = ground arith

-- Output that comes in two pieces is captured as if it came in one, also where the limit is
-- reached in the first piece.
pub append_capped-append :
    (buf : Bytes) (lines : ℕ) (xs ys : Bytes)
    → append_capped buf lines (xs ++ ys)
      ≡ append_capped (append_capped buf lines xs).0 (append_capped buf lines xs).1 ys
unfolding append_capped
append_capped-append buf lines [] ys = refl
append_capped-append buf lines (x ∷ xs) ys = elim (Bool-cases (leb max_block_output_lines lines)) [
  | inl e ↦ rw e (sym (append_capped-full buf lines ys (ground arith)))
  | inr e ↦ rw e (
      append_capped-append (buf ++ x ∷ []) (if x == 0x0A then (lines + 1) % 2 ^ 32 else lines) xs
        ys)
]

-- What the capture is after `bs` has come: a prefix of it is kept, with its newlines counted, and
-- it is all of `bs` unless the limit is reached.
abbrev pub IsKept : Bytes → ℕ → Bytes → Bytes × ℕ → Type 0
IsKept buf lines bs (out, n) =
    (k : ℕ) × (out ≡ buf ++ take k bs)
    × (n ≡ lines + newlines (take k bs))
    × (n ≤ max_block_output_lines)
    × ((k ≡ length bs) ⊎ (n ≡ max_block_output_lines))

IsKept-cons :
    (buf : Bytes) (lines b : ℕ) (bs : Bytes) (r : Bytes × ℕ)
    → lines < max_block_output_lines
    → IsKept (buf ++ b ∷ []) (if b == 0x0A then (lines + 1) % 2 ^ 32 else lines) bs r
    → IsKept buf lines (b ∷ bs) r
IsKept-cons buf lines b bs (out, n) h (k, e, c, l, full) =
    (suc k, e ∙ append_assoc buf (b ∷ []) (take k bs), ground arith, l, ground arith)

-- Under the limit, a capture keeps the longest prefix of the output that the limit on newlines
-- allows, and counts its newlines.
pub append_capped-IsKept :
    (buf : Bytes) (lines : ℕ) (bs : Bytes)
    → lines ≤ max_block_output_lines
    → IsKept buf lines bs (append_capped buf lines bs)
unfolding append_capped
append_capped-IsKept buf lines [] h = (0, sym (append-nil buf), omega arith, h, inl refl)
append_capped-IsKept buf lines (b ∷ bs) h = elim (Bool-cases (leb max_block_output_lines lines)) [
  | inl e ↦ rw e (0, sym (append-nil buf), omega arith, h, inr (ground arith))
  | inr e ↦
      let lines' = if b == 0x0A then (lines + 1) % 2 ^ 32 else lines in
      rw e (
        IsKept-cons buf lines b bs (append_capped (buf ++ b ∷ []) lines' bs) (ground arith)
          (append_capped-IsKept (buf ++ b ∷ []) lines' bs (ground arith)))
]

newlines-append : (xs ys : Bytes) → newlines (xs ++ ys) ≡ newlines xs + newlines ys
newlines-append [] ys = omega arith
newlines-append (x ∷ xs) ys = ground (arith, newlines-append xs ys)

module _ (E : Emulator) where
  -- The counters of a block are those of its captures, within the limit.
  abbrev pub IsCounted : Block E → Type 0
  IsCounted b =
      (b.stylized_output_lines ≡ newlines b.stylized_output)
      × (newlines b.stylized_output ≤ max_block_output_lines)
      × (b.stylized_command_lines ≡ newlines b.stylized_command)
      × (newlines b.stylized_command ≤ max_block_output_lines)

  pub append_output_bytes-IsCounted :
      (b : Block E) (bs : Bytes) → IsCounted b → IsCounted (append_output_bytes E b bs)
  unfolding append_output_bytes
  append_output_bytes-IsCounted b bs (o, p, c, d) =
      let (k, e, n, l, full) =
        append_capped-IsKept b.stylized_output b.stylized_output_lines bs (omega (arith, o, p)) in
      let count = newlines-append b.stylized_output (take k bs) in
      let same = n ∙ ap (λ m. m + newlines (take k bs)) o ∙ sym count ∙ ap newlines (sym e) in
      (same, subst (λ m. m ≤ max_block_output_lines) same l, c, d)
