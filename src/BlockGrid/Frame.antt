-- ===== src/BlockGrid/Frame.antt =====
-- The two snapshots of a block's grid, and the number of rows that the host is told.
use bed_term.Prelude.{
  ℕ, ◌+◌, ◌*◌, ◌^◌, ◌≤◌, ◌<◌, ◌≡◌, refl, sym, ap, ◌∙◌, false, Option, none, some, arith, leb,
  length,
}
use bed_term.Prelude.Int.{ℤ, pos, pos_part, ◌+ℤ◌, ◌-ℤ◌}
use bed_term.Alacritty.{Cell, Emulator}
use bed_term.Palette.{Palette, default_palette}
use bed_term.Snapshot.{CellSnapshot, cell_at, RawCellSnapshot, resolve_cell, resolve_grid}
use bed_term.Snapshot.Cells.{grid_cells, length-grid_cells, get_elem?-grid_cells, map-grid_cells}
use bed_term.Snapshot.Colors.{resolve-cell_color_from_alacritty}
use bed_term.BlockGrid.Content.{IsLast, last_content_row-IsLast}
use bed_term.BlockGrid.{
  neg_ℤ, cell_snapshot, raw_cell_snapshot, BlockGrid, cursor_row, last_content_row, history_lines,
  used_u16, used_rows, used_i32, visible_used, history_i32, line_count, snapshot, snapshot_raw,
}

resolve_cell-raw_cell_snapshot :
    (p : Palette) (c : Cell) → resolve_cell p (raw_cell_snapshot c) ≡ cell_snapshot p c
unfolding resolve_cell raw_cell_snapshot cell_snapshot
resolve_cell-raw_cell_snapshot p c =
    rw (resolve-cell_color_from_alacritty c.fg p, resolve-cell_color_from_alacritty c.bg p) refl

module _ (E : Emulator) where
  -- For every palette, resolving the palette-free snapshot of a grid gives the snapshot that the
  -- grid gives with that palette.
  pub resolve_grid-snapshot_raw :
      (g : BlockGrid E) (p : Palette) → resolve_grid (snapshot_raw E g) p ≡ snapshot E g p
  unfolding resolve_grid snapshot_raw snapshot
  resolve_grid-snapshot_raw g p =
      let from = neg_ℤ (history_i32 E g) in
      let n = line_count E (history_i32 E g) (visible_used E g) in
      let at : ℤ → ℕ → RawCellSnapshot = λ l c. raw_cell_snapshot (E.cell g.term l c) in
      ap (λ cs. record (snapshot E g p) { cells = cs })
        (map-grid_cells (resolve_cell p) at from g.cols n ∙ (λ i.
          grid_cells (λ l c. resolve_cell-raw_cell_snapshot p (E.cell g.term l c) i) from g.cols n))

  -- A grid with a row, and with fewer lines than a signed 16-bit integer counts: the emulator
  -- keeps at most 10000 lines of history.
  pub record IsSized (g : BlockGrid E) : Type 0 where
    pub some_row : 0 < g.rows
    pub few_lines : history_lines E g + g.rows < 2 ^ 15

  used_i32-within :
      (g : BlockGrid E) (o : Option ℤ)
      → IsSized g
      → IsLast E g o
      → (n : ℕ) × (used_i32 E (cursor_row E g) g.rows o ≡ pos n)
        × (used_u16 E (cursor_row E g) g.rows o ≡ n)
        × (0 < n)
        × (n ≤ g.rows)
  used_i32-within g none s (h, blank) = (
    pos_part (used_i32 E (cursor_row E g) g.rows none),
    ground arith,
    ground arith,
    ground arith,
    ground arith,
  )
  used_i32-within g (some r) s (h, _, _, _) =
      (pos_part r + 1, ground arith, ground arith, ground arith, ground arith)

  -- The numbers that both snapshots are made of.
  frame :
      (g : BlockGrid E)
      → IsSized g
      → (n : ℕ) × (visible_used E g ≡ pos n)
        × (history_i32 E g ≡ pos (history_lines E g))
        × (used_rows E g ≡ history_lines E g + n)
        × (history_lines E g + n < 2 ^ 15)
  unfolding visible_used used_rows
  frame g s =
      let (n, e, u, some_row, few) =
        used_i32-within g (last_content_row E g) s (last_content_row-IsLast E g) in
      (n, e, ground arith, rw u (ground arith), ground arith)

  pub used_rows-some : (g : BlockGrid E) → IsSized g → 0 < used_rows E g
  unfolding used_rows
  used_rows-some g s =
      let (n, e, u, some_row, few) =
        used_i32-within g (last_content_row E g) s (last_content_row-IsLast E g) in
      rw u (ground arith)

  snapshot-frame :
      (g : BlockGrid E) (p : Palette)
      → IsSized g
      → ((snapshot E g p).rows ≡ used_rows E g)
        × ((snapshot E g p).cells
            ≡ grid_cells
                (λ l c. cell_snapshot p (E.cell g.term l c))
                (neg_ℤ (pos (history_lines E g)))
                g.cols
                (used_rows E g))
  unfolding snapshot
  snapshot-frame g p s =
      let (n, e, h, u, few) = frame g s in
      let count : line_count E (pos (history_lines E g)) (pos n) ≡ history_lines E g + n =
        ground arith in
      rw (e, h, u) (ground arith, rw count refl)

  snapshot-cols : (g : BlockGrid E) (p : Palette) → (snapshot E g p).cols ≡ g.cols
  unfolding snapshot
  snapshot-cols g p = refl

  -- For a grid with a row and fewer than 2^15 lines, the number of rows that the host is told is
  -- the number of rows of the snapshot, which holds that many rows of cells.
  pub used_rows-rows :
      (g : BlockGrid E) (p : Palette)
      → IsSized g
      → (used_rows E g ≡ (snapshot E g p).rows)
        × (length (snapshot E g p).cells ≡ (snapshot E g p).rows * (snapshot E g p).cols)
  used_rows-rows g p s =
      let (r, c) = snapshot-frame g p s in
      let at : ℤ → ℕ → CellSnapshot = λ l c. cell_snapshot p (E.cell g.term l c) in
      (
        sym r,
        rw (c, r, snapshot-cols g p)
            (length-grid_cells at (neg_ℤ (pos (history_lines E g))) g.cols (used_rows E g)),
      )

  pub used_rows-snapshot_raw :
      (g : BlockGrid E) → IsSized g → (snapshot_raw E g).rows ≡ used_rows E g
  unfolding snapshot_raw snapshot
  used_rows-snapshot_raw g s = (snapshot-frame g default_palette s).0

  -- A cell of the snapshot of a block is the cell of the grid that many lines below the oldest
  -- line of the history, for a grid with a row and fewer than 2^15 lines.
  pub cell_at-snapshot :
      (g : BlockGrid E) (p : Palette) (col row : ℕ)
      → IsSized g
      → col < g.cols
      → row < used_rows E g
      → cell_at (snapshot E g p) col row
        ≡ some (cell_snapshot p (E.cell g.term (pos row -ℤ pos (history_lines E g)) col))
  unfolding cell_at
  cell_at-snapshot g p col row s c r =
      let (rows, cells) = snapshot-frame g p s in
      let at : ℤ → ℕ → CellSnapshot = λ l c. cell_snapshot p (E.cell g.term l c) in
      let in_cols : leb g.cols col ≡ false = ground arith in
      let in_rows : leb (snapshot E g p).rows row ≡ false = ground (arith, rows) in
      let from = neg_ℤ (pos (history_lines E g)) in
      let line : pos row -ℤ pos (history_lines E g) ≡ from +ℤ pos row = ground arith in
      rw (snapshot-cols g p, in_cols, in_rows, cells, line)
        (get_elem?-grid_cells at from g.cols (used_rows E g) row col r c)
