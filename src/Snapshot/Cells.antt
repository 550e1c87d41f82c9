-- ===== src/Snapshot/Cells.antt =====
-- The double loop over lines and columns that each snapshot in block_grid.rs and term.rs runs, with
-- what it pushes for a cell as a parameter.
use bed_term.Prelude.{
  ℕ, zero, suc, ◌+◌, ◌*◌, ◌<◌, ◌≡◌, refl, ap, subst, ◌∙◌, some, List, [], ◌∷◌, ◌++◌, map,
  map-append, arith, length, get_elem?, length-append, get_elem?-append,
}
use bed_term.Prelude.Int.{ℤ, pos, ◌+ℤ◌}
use bed_term.Prelude.Lists.{length, get_elem?, length-append, get_elem?-append}

module _ {A : Type 0} (at : ℤ → ℕ → A) where
  -- `for col in col..` over `n` columns.
  pub row_cells : ℤ → ℕ → ℕ → List A
  row_cells line col zero = []
  row_cells line col (suc n) = at line col ∷ row_cells line (suc col) n

  -- `for line in line..` over `n` lines, `cols` columns each.
  pub grid_cells : ℤ → ℕ → ℕ → List A
  unfolding row_cells
  grid_cells line cols zero = []
  grid_cells line cols (suc n) = row_cells line 0 cols ++ grid_cells (line +ℤ pos 1) cols n

  length-row_cells : (line : ℤ) (col n : ℕ) → length (row_cells line col n) ≡ n
  unfolding row_cells
  length-row_cells line col zero = refl
  length-row_cells line col (suc n) = ap suc (length-row_cells line (suc col) n)

  pub length-grid_cells : (line : ℤ) (cols n : ℕ) → length (grid_cells line cols n) ≡ n * cols
  unfolding grid_cells
  length-grid_cells line cols zero = omega arith
  length-grid_cells line cols (suc n) = omega (
    arith,
    length-append (row_cells line 0 cols) (grid_cells (line +ℤ pos 1) cols n),
    length-row_cells line 0 cols,
    length-grid_cells (line +ℤ pos 1) cols n,
  )

  get_elem?-row_cells :
      (line : ℤ) (col n k : ℕ) (rest : List A)
      → k < n
      → get_elem? (row_cells line col n ++ rest) k ≡ some (at line (col + k))
  unfolding row_cells
  get_elem?-row_cells line col zero k rest h = ground arith
  get_elem?-row_cells line col (suc n) zero rest h =
      let e : col + 0 ≡ col = omega arith in rw e refl
  get_elem?-row_cells line col (suc n) (suc k) rest h =
      let e : col + suc k ≡ suc col + k = omega arith in
      rw e (get_elem?-row_cells line (suc col) n k rest (omega arith))

  pub get_elem?-grid_cells :
      (line : ℤ) (cols n row col : ℕ)
      → row < n
      → col < cols
      → get_elem? (grid_cells line cols n) (row * cols + col) ≡ some (at (line +ℤ pos row) col)
  unfolding grid_cells
  get_elem?-grid_cells line cols zero row col h k = ground arith
  get_elem?-grid_cells line cols (suc n) zero col h k =
      let e : 0 * cols + col ≡ col = omega arith in
      let z : 0 + col ≡ col = omega arith in
      let l : line +ℤ pos 0 ≡ line = ground arith in
      rw (e, l)
        (subst
          (λ c.
            get_elem? (row_cells line 0 cols ++ grid_cells (line +ℤ pos 1) cols n) col
            ≡ some (at line c))
          z (get_elem?-row_cells line 0 cols col (grid_cells (line +ℤ pos 1) cols n) k))
  get_elem?-grid_cells line cols (suc n) (suc row) col h k =
      let e : suc row * cols + col ≡ length (row_cells line 0 cols) + (row * cols + col) =
        omega (arith, length-row_cells line 0 cols) in
      let l : line +ℤ pos (suc row) ≡ line +ℤ pos 1 +ℤ pos row = ground arith in
      rw (e, l, get_elem?-append)
        (get_elem?-grid_cells (line +ℤ pos 1) cols n row col (omega arith) k)

map-row_cells :
    {A B : Type 0} (f : A → B) (at : ℤ → ℕ → A) (line : ℤ) (col n : ℕ)
    → map f (row_cells at line col n) ≡ row_cells (λ l c. f (at l c)) line col n
unfolding row_cells
map-row_cells f at line col zero = refl
map-row_cells f at line col (suc n) =
    ap (◌∷◌ (f (at line col))) (map-row_cells f at line (suc col) n)

pub map-grid_cells :
    {A B : Type 0} (f : A → B) (at : ℤ → ℕ → A) (line : ℤ) (cols n : ℕ)
    → map f (grid_cells at line cols n) ≡ grid_cells (λ l c. f (at l c)) line cols n
unfolding grid_cells
map-grid_cells f at line cols zero = refl
map-grid_cells f at line cols (suc n) =
    map-append f (row_cells at line 0 cols) (grid_cells at (line +ℤ pos 1) cols n)
    ∙ rw (map-row_cells f at line 0 cols, map-grid_cells f at (line +ℤ pos 1) cols n) refl
