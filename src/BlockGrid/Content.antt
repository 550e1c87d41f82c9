-- ===== src/BlockGrid/Content.antt =====
-- What the scan for the last row with content finds.
use bed_term.Prelude.{
  ℕ, zero, suc, ◌+◌, ◌≤◌, ◌<◌, ◌≡◌, refl, sym, subst, ◌⊎◌, inl, inr, true, false, Option, none,
  some, arith, if◌then◌else◌, Bool-cases, le-cases,
}
use bed_term.Prelude.Int.{ℤ, pos, ◌≤ℤ◌, ◌<ℤ◌}
use bed_term.Alacritty.{Emulator}
use bed_term.BlockGrid.{
  in_range, has_glyph, BlockGrid, cursor_row, row_has_glyph, reaches, scan_up, last_content_row,
}

module _ (E : Emulator) where
  -- A line of the grid without content in its first `cols` columns.
  abbrev pub IsBlank : E.Term → ℕ → ℕ → Type 0
  IsBlank t cols row = (col : ℕ) → col < cols → has_glyph (E.cell t (pos row) col) ≡ false

  -- A line with some.
  abbrev pub HasGlyph : E.Term → ℕ → ℕ → Type 0
  HasGlyph t cols row = (col : ℕ) × (col < cols) × (has_glyph (E.cell t (pos row) col) ≡ true)

  row_has_glyph-blank :
      (t : E.Term) (row col n : ℕ)
      → row_has_glyph E t (pos row) col n ≡ false
      → (k : ℕ) → col ≤ k
      → k < col + n
      → has_glyph (E.cell t (pos row) k) ≡ false
  unfolding row_has_glyph
  row_has_glyph-blank t row col zero h k a b = ground arith
  row_has_glyph-blank t row col (suc n) h k a b =
      elim (Bool-cases (has_glyph (E.cell t (pos row) col))) [
        | inl e ↦ ground arith
        | inr e ↦ elim (le-cases col k a) [
          | inl same ↦ subst (λ c. has_glyph (E.cell t (pos row) c) ≡ false) same e
          | inr less ↦ row_has_glyph-blank t row (suc col) n (ground arith) k less (omega arith)
        ]
      ]

  row_has_glyph-some :
      (t : E.Term) (row col n : ℕ)
      → row_has_glyph E t (pos row) col n ≡ true
      → (k : ℕ) × (k < col + n) × (has_glyph (E.cell t (pos row) k) ≡ true)
  unfolding row_has_glyph
  row_has_glyph-some t row col zero h = ground arith
  row_has_glyph-some t row col (suc n) h = elim (Bool-cases (has_glyph (E.cell t (pos row) col))) [
    | inl e ↦ (col, omega arith, e)
    | inr e ↦
        let (k, b, g) = row_has_glyph-some t row (suc col) n (ground arith) in (k, omega arith, g)
  ]

  -- What the scan over the first `n` lines finds, given the line it starts from.
  abbrev pub Found : E.Term → ℕ → ℕ → Option ℤ → Option ℤ → Type 0
  Found t cols n best none = (best ≡ none) × ((row : ℕ) → row < n → IsBlank t cols row)
  Found t cols n best (some r) =
      ((best ≡ some r) ⊎ ((k : ℕ) × (r ≡ pos k) × (k < n) × HasGlyph t cols k))
      × ((b : ℤ) → best ≡ some b → b ≤ℤ r)
      × ((row : ℕ) → row < n → r <ℤ pos row → IsBlank t cols row)

  IsBlank-last :
      (t : E.Term) (cols n row : ℕ)
      → row < suc n
      → (row < n → IsBlank t cols row)
      → IsBlank t cols n
      → IsBlank t cols row
  IsBlank-last t cols n row h before g = elim (le-cases row n (omega arith)) [
    | inl e ↦ subst (IsBlank t cols) (sym e) g
    | inr l ↦ before l
  ]

  Found-glyph :
      (t : E.Term) (cols n : ℕ) (best rest : Option ℤ)
      → reaches E best (pos n) ≡ false
      → HasGlyph t cols n
      → Found t cols n (some (pos n)) rest
      → Found t cols (suc n) best rest
  Found-glyph t cols n best none above g (f, h) = cc
  Found-glyph t cols n best (some r) above g (found, least, blank) = (
    elim found [
      | inl e ↦ inr (n, ground arith, omega arith, g)
      | inr (k, e, l, h) ↦ inr (k, e, omega arith, h)
    ],
    (λ b e. let m = least (pos n) refl in ground (arith, m)),
    λ row h less. let m = least (pos n) refl in blank row (omega (arith, m)) less,
  )

  Found-blank :
      (t : E.Term) (cols n : ℕ) (best rest : Option ℤ)
      → IsBlank t cols n
      → Found t cols n best rest
      → Found t cols (suc n) best rest
  Found-blank t cols n best none g (f, h) = (f, λ row k. IsBlank-last t cols n row k (h row) g)
  Found-blank t cols n best (some r) g (found, least, blank) = (
    elim found [ inl e ↦ inl e | inr (k, e, l, h) ↦ inr (k, e, omega arith, h) ],
    least,
    λ row h less. IsBlank-last t cols n row h (λ k. blank row k less) g,
  )

  Found-reached :
      (t : E.Term) (cols n : ℕ) (best : Option ℤ)
      → reaches E best (pos n) ≡ true
      → Found t cols (suc n) best best
  Found-reached t cols n none above = cc
  Found-reached t cols n (some b) above =
      (inl refl, (λ c e. ground arith), λ row h less col k. ground arith)

  Found-nil : (t : E.Term) (cols : ℕ) (best : Option ℤ) → Found t cols 0 best best
  Found-nil t cols none = (refl, λ row h col k. ground arith)
  Found-nil t cols (some b) = (inl refl, (λ c e. ground arith), λ row h less col k. ground arith)

  scan_up-Found :
      (t : E.Term) (cols n : ℕ) (best : Option ℤ) → Found t cols n best (scan_up E t cols n best)
  unfolding scan_up
  scan_up-Found t cols zero best = Found-nil t cols best
  scan_up-Found t cols (suc n) best = elim (Bool-cases (reaches E best (pos n))) [
    | inl e ↦ rw e (Found-reached t cols n best e)
    | inr e ↦ elim (Bool-cases (row_has_glyph E t (pos n) 0 cols)) [
      | inl g ↦
          let (k, b, h) = row_has_glyph-some t n 0 cols g in
          rw (e, g)
            (Found-glyph t cols n best (scan_up E t cols n (some (pos n))) e (k, omega arith, h)
              (scan_up-Found t cols n (some (pos n))))
      | inr g ↦
          rw (e, g)
            (Found-blank t cols n best (scan_up E t cols n best)
              (λ k h. row_has_glyph-blank t n 0 cols g k (omega arith) (omega arith))
              (scan_up-Found t cols n best))
    ]
  ]

  -- The row that `last_content_row` answers, of the grid's screen.
  abbrev pub IsLast : BlockGrid E → Option ℤ → Type 0
  IsLast g none =
      (in_range (cursor_row E g) (pos g.rows) ≡ false)
      × ((row : ℕ) → row < g.rows → IsBlank g.term g.cols row)
  IsLast g (some r) =
      (in_range r (pos g.rows) ≡ true)
      × ((r ≡ cursor_row E g) ⊎ ((k : ℕ) × (r ≡ pos k) × HasGlyph g.term g.cols k))
      × (in_range (cursor_row E g) (pos g.rows) ≡ true → cursor_row E g ≤ℤ r)
      × ((row : ℕ) → row < g.rows → r <ℤ pos row → IsBlank g.term g.cols row)

  start_row : BlockGrid E → Option ℤ
  start_row g = if in_range (cursor_row E g) (pos g.rows) then some (cursor_row E g) else none

  IsLast-Found :
      (g : BlockGrid E) (r : Option ℤ) → Found g.term g.cols g.rows (start_row g) r → IsLast g r
  unfolding start_row
  IsLast-Found g none (f, h) = (ground arith, h)
  IsLast-Found g (some r) (found, least, blank) = (
    ground arith,
    elim found [ inl e ↦ inl (ground arith) | inr (k, e, l, h) ↦ inr (k, e, h) ],
    (λ e. least (cursor_row E g) (rw e refl)),
    blank,
  )

  -- The scan answers the last row of the screen that holds the cursor or a glyph, and none where
  -- the screen holds no glyph and the cursor is outside it; no row below the answer has a glyph,
  -- and the cursor is not below it. A glyph is a character that is no space, or any flag; the
  -- background of a cell is not looked at.
  pub last_content_row-IsLast : (g : BlockGrid E) → IsLast g (last_content_row E g)
  unfolding last_content_row start_row
  last_content_row-IsLast g =
      IsLast-Found g (last_content_row E g) (scan_up-Found g.term g.cols g.rows (start_row g))
