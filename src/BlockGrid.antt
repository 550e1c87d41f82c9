-- ===== src/BlockGrid.antt =====
-- rust-core/bedterm-core/src/block_grid.rs: the private terminal of a block. Its sides are 16-bit
-- integers, and at least 1: with no row, `clamp` has no range to clamp to.
pub mod Content
pub mod Frame
use bed_term.Prelude.{
  ℕ, zero, suc, ◌+◌, ◌-◌, ◌%◌, ◌^◌, min, Bool, true, false, not, ◌&&◌, ◌||◌, Option, none, some, [],
  ◌∷◌, ◌==◌, if◌then◌else◌, Bytes,
}
use bed_term.Prelude.Int.{ℤ, pos, negsuc, pos_part, ◌+ℤ◌, ◌-ℤ◌, leb_ℤ, ltb_ℤ, wrap_i32}
use bed_term.Alacritty.{CellFlags, is_empty, Cell, Emulator}
use bed_term.Palette.{Palette, color_to_rgba}
use bed_term.Snapshot.{
  CellSnapshot, GridSnapshot, cell_color_from_alacritty, RawCellSnapshot, RawGridSnapshot,
}
use bed_term.Snapshot.Cells.{grid_cells}

-- `a as u16`, of a signed integer.
abbrev pub as_u16 : ℤ → ℕ
as_u16 (pos n) = n % 2 ^ 16
as_u16 (negsuc n) = 2 ^ 16 - 1 - n % 2 ^ 16

-- `-a`.
abbrev pub neg_ℤ : ℤ → ℤ
neg_ℤ a = pos 0 -ℤ a

-- `a.clamp(lo, hi)`.
abbrev pub clamp_ℤ : ℤ → ℤ → ℤ → ℤ
clamp_ℤ a lo hi = if ltb_ℤ a lo then lo else if ltb_ℤ hi a then hi else a

-- `(0..hi).contains(&a)`.
abbrev pub in_range : ℤ → ℤ → Bool
in_range a hi = leb_ℤ (pos 0) a && ltb_ℤ a hi

-- The flag bits of a snapshot's cell: different bits, so that `|=` adds them.
unfoldable pub flag_bits : CellFlags → ℕ
flag_bits f =
    (if f.bold then 1 else 0)
    + (if f.underlines then 2 else 0)
    + (if f.inverse then 4 else 0)
    + (if f.italic then 8 else 0)
    + (if f.wide_char then 16 else 0)
    + (if f.wide_char_spacer then 32 else 0)

-- The character of a snapshot's cell.
unfoldable pub cell_ch : Cell → ℕ
cell_ch c = if c.flags.wide_char_spacer || (c.c == b' ' && is_empty c.flags) then 0 else c.c

-- What `snapshot` pushes for a cell.
unfoldable pub cell_snapshot : Palette → Cell → CellSnapshot
unfolding cell_ch flag_bits
cell_snapshot p c = record {
  ch = cell_ch c;
  fg_rgba = color_to_rgba c.fg p;
  bg_rgba = color_to_rgba c.bg p;
  flags = flag_bits c.flags;
}

-- What `snapshot_raw` pushes for a cell.
unfoldable pub raw_cell_snapshot : Cell → RawCellSnapshot
unfolding cell_ch flag_bits
raw_cell_snapshot c = record {
  ch = cell_ch c;
  fg = cell_color_from_alacritty c.fg;
  bg = cell_color_from_alacritty c.bg;
  flags = flag_bits c.flags;
}

-- `cell.c != ' ' || !cell.flags.is_empty()`.
abbrev pub has_glyph : Cell → Bool
has_glyph c = not (c.c == b' ') || not (is_empty c.flags)

module _ (E : Emulator) where
  pub record BlockGrid : Type 0 where
    pub parser : E.Processor
    pub term : E.Term
    pub cols : ℕ
    pub rows : ℕ

  -- `BlockGrid::new`.
  unfoldable pub new_grid : ℕ → ℕ → BlockGrid
  new_grid cols rows = record {
    parser = E.new_processor;
    term = E.new_term cols rows;
    cols = cols;
    rows = rows;
  }

  -- `BlockGrid::feed`.
  unfoldable pub feed_grid : BlockGrid → Bytes → BlockGrid
  feed_grid g [] = g
  feed_grid g (b ∷ bs) =
      let (parser, term) = E.advance g.parser g.term (b ∷ bs) in
      record g { parser = parser; term = term }

  -- `BlockGrid::resize`.
  unfoldable pub resize_grid : BlockGrid → ℕ → ℕ → BlockGrid
  resize_grid g cols rows = record g { term = E.resize g.term cols rows; cols = cols; rows = rows }

  -- `BlockGrid::cursor_row`.
  abbrev pub cursor_row : BlockGrid → ℤ
  cursor_row g = E.cursor_line g.term

  -- `for col in 0..cols`, from `col` on.
  pub row_has_glyph : E.Term → ℤ → ℕ → ℕ → Bool
  row_has_glyph t line col zero = false
  row_has_glyph t line col (suc n) =
      if has_glyph (E.cell t line col) then true else row_has_glyph t line (suc col) n

  -- `best.is_some_and(|b| b >= row)`.
  abbrev pub reaches : Option ℤ → ℤ → Bool
  reaches none row = false
  reaches (some b) row = leb_ℤ row b

  -- `for row in (0..n).rev()`.
  pub scan_up : E.Term → ℕ → ℕ → Option ℤ → Option ℤ
  unfolding row_has_glyph
  scan_up t cols zero best = best
  scan_up t cols (suc row) best =
      let rest =
        scan_up t cols row (if row_has_glyph t (pos row) 0 cols then some (pos row) else best) in
      if reaches best (pos row) then best else rest

  unfoldable pub last_content_row : BlockGrid → Option ℤ
  unfolding scan_up
  last_content_row g =
      scan_up g.term g.cols g.rows
        (if in_range (cursor_row g) (pos g.rows) then some (cursor_row g) else none)

  -- `grid.total_lines() - grid.screen_lines()`: the total includes the screen.
  abbrev pub history_lines : BlockGrid → ℕ
  history_lines g = E.total_lines g.term - E.screen_lines g.term

  -- `((self.cursor_row() + 1).clamp(1, self.rows as i32)) as u16`, and `(r as u16) + 1`, which
  -- stops at the bound.
  abbrev pub used_u16 : ℤ → ℕ → Option ℤ → ℕ
  used_u16 at_row rows none = as_u16 (clamp_ℤ (at_row +ℤ pos 1) (pos 1) (pos rows))
  used_u16 at_row rows (some r) = min (as_u16 r + 1) (2 ^ 16 - 1)

  unfoldable pub used_rows : BlockGrid → ℕ
  unfolding last_content_row
  used_rows g =
      (history_lines g % 2 ^ 16 + used_u16 (cursor_row g) g.rows (last_content_row g)) % 2 ^ 16

  -- `visible_used`, of the snapshots.
  abbrev pub used_i32 : ℤ → ℕ → Option ℤ → ℤ
  used_i32 at_row rows none = clamp_ℤ (at_row +ℤ pos 1) (pos 1) (pos rows)
  used_i32 at_row rows (some r) = r +ℤ pos 1

  unfoldable pub visible_used : BlockGrid → ℤ
  unfolding last_content_row
  visible_used g = used_i32 (cursor_row g) g.rows (last_content_row g)

  -- `history`, of the snapshots.
  abbrev pub history_i32 : BlockGrid → ℤ
  history_i32 g = wrap_i32 (pos (history_lines g))

  -- `-history..visible_used`, as the number of its lines.
  abbrev pub line_count : ℤ → ℤ → ℕ
  line_count history used = pos_part (used +ℤ history)

  -- The row of the cursor in a snapshot.
  abbrev pub snapshot_cursor : ℤ → ℤ → ℤ → ℕ → ℕ
  snapshot_cursor at_row history used total_rows =
      if in_range at_row used then as_u16 (history +ℤ at_row) else total_rows

  unfoldable pub snapshot : BlockGrid → Palette → GridSnapshot
  unfolding visible_used cell_snapshot
  snapshot g p =
      let history = history_i32 g in
      let used = visible_used g in
      let total_rows = as_u16 (history +ℤ used) in
      record {
        cols = g.cols;
        rows = total_rows;
        cursor_col = E.cursor_column g.term % 2 ^ 16;
        cursor_row = snapshot_cursor (cursor_row g) history used total_rows;
        display_offset = 0;
        cells =
            grid_cells (λ line col. cell_snapshot p (E.cell g.term line col)) (neg_ℤ history) g.cols
              (line_count history used);
      }

  unfoldable pub snapshot_raw : BlockGrid → RawGridSnapshot
  unfolding visible_used raw_cell_snapshot
  snapshot_raw g =
      let history = history_i32 g in
      let used = visible_used g in
      let total_rows = as_u16 (history +ℤ used) in
      record {
        cols = g.cols;
        rows = total_rows;
        cursor_col = E.cursor_column g.term % 2 ^ 16;
        cursor_row = snapshot_cursor (cursor_row g) history used total_rows;
        display_offset = 0;
        cells =
            grid_cells (λ line col. raw_cell_snapshot (E.cell g.term line col)) (neg_ℤ history)
              g.cols (line_count history used);
      }
