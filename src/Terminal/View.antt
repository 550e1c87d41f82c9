-- ===== src/Terminal/View.antt =====
-- What the snapshots of the terminal show.
use bed_term.Prelude.{
  ℕ, ◌+◌, ◌-◌, ◌^◌, ◌≤◌, ◌<◌, ◌≡◌, refl, ap, ◌∙◌, ◌⊎◌, inl, inr, false, some, arith, leb,
  if◌then◌else◌, Bool-cases,
}
use bed_term.Prelude.Int.{ℤ, pos, negsuc, ◌+ℤ◌, ◌-ℤ◌, ◌≤ℤ◌, max_ℤ, wrap_i32, wrap_i32-IsI32}
use bed_term.Alacritty.{Cell, Emulator}
use bed_term.Palette.{Palette}
use bed_term.Snapshot.{CellSnapshot, cell_at}
use bed_term.Snapshot.Cells.{grid_cells, get_elem?-grid_cells}
use bed_term.BlockGrid.{as_u16, in_range, flag_bits, cell_ch, cell_snapshot}
use bed_term.Dcs.Sniffer.{Vte}
use bed_term.Terminal.{Terminal}
use bed_term.Terminal.Screen.{
  term_flag_bits, term_cell, range_start, range_end, snapshot_range, visible_cursor,
  terminal_snapshot,
}

-- The snapshots of the terminal show of a cell what those of a block show, and besides whether it
-- is struck out, which those of a block do not.
pub term_cell-cell_snapshot :
    (p : Palette) (c : Cell)
    → term_cell p c ≡ record (cell_snapshot p c) {
      flags = (cell_snapshot p c).flags + (if c.flags.strikeout then 64 else 0);
    }
unfolding term_cell cell_snapshot cell_ch term_flag_bits flag_bits
term_cell-cell_snapshot p c = refl

range-line : (history a row : ℕ) → pos a -ℤ pos history +ℤ pos row ≡ pos (a + row) -ℤ pos history
range-line history a row = ground arith

range-count :
    (history a b : ℕ)
    → a < b
    → b < 2 ^ 16
    → (pos b -ℤ pos history -ℤ (pos a -ℤ pos history) ≡ pos (b - a))
      × (as_u16 (max_ℤ (pos (b - a)) (pos 0)) ≡ b - a)
range-count history a b h k = (ground arith, ground arith)

module _ (E : Emulator) (V : Vte) where
  terminal_snapshot-cells :
      (t : Terminal E V)
      → (terminal_snapshot E V t).cells
        ≡ grid_cells
            (λ row col.
              term_cell t.palette
                (E.cell t.term (wrap_i32 (row -ℤ wrap_i32 (pos (E.display_offset t.term)))) col))
            (pos 0)
            t.cols
            t.rows
  unfolding terminal_snapshot
  terminal_snapshot-cells t = refl

  terminal_snapshot-size :
      (t : Terminal E V)
      → ((terminal_snapshot E V t).cols ≡ t.cols) × ((terminal_snapshot E V t).rows ≡ t.rows)
  unfolding terminal_snapshot
  terminal_snapshot-size t = (refl, refl)

  -- A cell of the snapshot of the terminal is the cell of the grid as many lines above its row as
  -- the display is scrolled into the history; for fewer than 2^16 rows, and fewer than 2^16 lines
  -- scrolled.
  pub cell_at-terminal_snapshot :
      (t : Terminal E V) (col row : ℕ)
      → col < t.cols
      → row < t.rows
      → t.rows < 2 ^ 16
      → E.display_offset t.term < 2 ^ 16
      → cell_at (terminal_snapshot E V t) col row
        ≡ some (term_cell t.palette (E.cell t.term (pos row -ℤ pos (E.display_offset t.term)) col))
  unfolding cell_at
  cell_at-terminal_snapshot t col row c r small d =
      let at : ℤ → ℕ → CellSnapshot = λ line k.
        term_cell t.palette
          (E.cell t.term (wrap_i32 (line -ℤ wrap_i32 (pos (E.display_offset t.term)))) k) in
      let in_cols : leb t.cols col ≡ false = ground arith in
      let in_rows : leb t.rows row ≡ false = ground arith in
      let (w, h) = terminal_snapshot-size t in
      let line : wrap_i32 (pos 0 +ℤ pos row -ℤ wrap_i32 (pos (E.display_offset t.term)))
          ≡ pos row -ℤ pos (E.display_offset t.term) =
        ground arith in
      rw (w, h, in_cols, in_rows, terminal_snapshot-cells t)
        (get_elem?-grid_cells at (pos 0) t.cols t.rows row col r c
          ∙ ap (λ l. some (term_cell t.palette (E.cell t.term l col))) line)

  -- The row of the cursor, of a line and an offset that an `i32` holds.
  visible_cursor-cases :
      (line : ℤ) (offset rows : ℕ)
      → rows < 2 ^ 16
      → offset < 2 ^ 16
      → negsuc (2 ^ 16) ≤ℤ line
      → line ≤ℤ pos (2 ^ 16)
      → (visible_cursor E V (wrap_i32 (line +ℤ wrap_i32 (pos offset))) rows < rows)
          × (pos (visible_cursor E V (wrap_i32 (line +ℤ wrap_i32 (pos offset))) rows)
              ≡ line +ℤ pos offset)
        ⊎ (visible_cursor E V (wrap_i32 (line +ℤ wrap_i32 (pos offset))) rows ≡ rows)
          × (in_range (line +ℤ pos offset) (pos rows) ≡ false)
  visible_cursor-cases line offset rows small d lo hi =
      let o : wrap_i32 (pos offset) ≡ pos offset = ground arith in
      let l : wrap_i32 (line +ℤ pos offset) ≡ line +ℤ pos offset =
        wrap_i32-IsI32 (line +ℤ pos offset) (ground arith) in
      rw (o, l)
        (elim (Bool-cases (in_range (line +ℤ pos offset) (pos rows))) [
          | inl e ↦ inl (rw e (ground arith, ground arith))
          | inr e ↦ inr (rw e (refl, refl))
        ])

  -- A range of lines within the grid is neither cut at its start nor at its end.
  range-inside :
      (history rows a b : ℕ)
      → a < b
      → b ≤ history + rows
      → history + rows < 2 ^ 16
      → (range_start E V (wrap_i32 (pos history)) rows (pos a) ≡ pos a -ℤ pos history)
        × (range_end E V (wrap_i32 (pos history)) rows (pos a -ℤ pos history) (pos b)
            ≡ pos b -ℤ pos history)
  range-inside history rows a b h k small =
      let w : wrap_i32 (pos history) ≡ pos history = ground arith in
      let x : wrap_i32 (pos a -ℤ pos history) ≡ pos a -ℤ pos history = ground arith in
      let y : wrap_i32 (pos b -ℤ pos history) ≡ pos b -ℤ pos history = ground arith in
      rw (w, x, y) (ground arith, ground arith)

  -- The row of the cursor in the snapshot is the row that shows the cursor, or the number of rows
  -- where no row does; for numbers of rows, of scrolled lines and of the line of the cursor
  -- within 2^16.
  pub terminal_snapshot-cursor :
      (t : Terminal E V)
      → t.rows < 2 ^ 16
      → E.display_offset t.term < 2 ^ 16
      → negsuc (2 ^ 16) ≤ℤ E.cursor_line t.term
      → E.cursor_line t.term ≤ℤ pos (2 ^ 16)
      → ((terminal_snapshot E V t).cursor_row < t.rows)
          × (pos (terminal_snapshot E V t).cursor_row
              ≡ E.cursor_line t.term +ℤ pos (E.display_offset t.term))
        ⊎ ((terminal_snapshot E V t).cursor_row ≡ t.rows)
          × (in_range (E.cursor_line t.term +ℤ pos (E.display_offset t.term)) (pos t.rows) ≡ false)
  unfolding terminal_snapshot
  terminal_snapshot-cursor t small d lo hi =
      visible_cursor-cases (E.cursor_line t.term) (E.display_offset t.term) t.rows small d lo hi

  snapshot_range-inside :
      (t : Terminal E V) (a b : ℕ)
      → a < b
      → b ≤ E.history_size t.term + t.rows
      → E.history_size t.term + t.rows < 2 ^ 16
      → ((snapshot_range E V t (pos a) (pos b)).rows ≡ b - a)
        × ((snapshot_range E V t (pos a) (pos b)).cols ≡ t.cols)
        × ((snapshot_range E V t (pos a) (pos b)).cells
            ≡ grid_cells
                (λ line i. term_cell t.palette (E.cell t.term line i))
                (pos a -ℤ pos (E.history_size t.term))
                t.cols
                (b - a))
  unfolding snapshot_range
  snapshot_range-inside t a b h k small =
      let (start, stop) = range-inside (E.history_size t.term) t.rows a b h k small in
      let (count, rows) = range-count (E.history_size t.term) a b h (omega arith) in
      rw (start, stop, count, rows) (refl, refl, refl)

  -- For a range of lines that the grid has, of fewer than 2^16, the snapshot of the range has one
  -- row for each line, and its cells are the cells of these lines.
  pub cell_at-snapshot_range :
      (t : Terminal E V) (a b col row : ℕ)
      → a + row < b
      → b ≤ E.history_size t.term + t.rows
      → E.history_size t.term + t.rows < 2 ^ 16
      → col < t.cols
      → ((snapshot_range E V t (pos a) (pos b)).rows ≡ b - a)
        × (cell_at (snapshot_range E V t (pos a) (pos b)) col row
            ≡ some (
                term_cell t.palette
                  (E.cell t.term (pos (a + row) -ℤ pos (E.history_size t.term)) col)))
  unfolding cell_at
  cell_at-snapshot_range t a b col row h k small c =
      let history = E.history_size t.term in
      let at : ℤ → ℕ → CellSnapshot = λ line i. term_cell t.palette (E.cell t.term line i) in
      let (rows, cols, cells) = snapshot_range-inside t a b (omega arith) k small in
      let in_cols : leb t.cols col ≡ false = ground arith in
      let in_rows : leb (b - a) row ≡ false = ground arith in
      let line : pos a -ℤ pos history +ℤ pos row ≡ pos (a + row) -ℤ pos history =
        range-line history a row in
      (
        rows,
        rw (cols, rows, in_cols, in_rows, cells)
            (get_elem?-grid_cells at (pos a -ℤ pos history) t.cols (b - a) row col (omega arith) c
              ∙ ap (λ l. some (at l col)) line),
      )
