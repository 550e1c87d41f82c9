-- ===== src/Terminal/Screen.antt =====
-- What the host sees of the `Terminal` of term.rs: its modes and its snapshots.
use bed_term.Prelude.{ℕ, ◌+◌, ◌%◌, ◌^◌, ◌&&◌, ◌||◌, none, some, ◌==◌, if◌then◌else◌}
use bed_term.Prelude.Int.{ℤ, pos, pos_part, ◌+ℤ◌, ◌-ℤ◌, max_ℤ, min_ℤ, wrap_i32}
use bed_term.Alacritty.{CellFlags, is_empty, Cell, TermMode, Emulator}
use bed_term.Palette.{Palette, color_to_rgba}
use bed_term.Snapshot.{CellSnapshot, GridSnapshot}
use bed_term.Snapshot.Cells.{grid_cells}
use bed_term.BlockGrid.{as_u16, neg_ℤ, in_range}
use bed_term.Dcs.Sniffer.{Vte}
use bed_term.Terminal.{Terminal, running_grid}

-- The bits `BT_MODE_*`.
unfoldable pub mode_bits : TermMode → ℕ
mode_bits m =
    (if m.alt_screen then 1 else 0)
    + (if m.bracketed_paste then 2 else 0)
    + (if m.mouse_mode then 4 else 0)
    + (if m.app_cursor then 8 else 0)
    + (if m.app_keypad then 16 else 0)
    + (if m.focus_in_out then 32 else 0)

-- `m |= n`, for the modes that the source tests.
abbrev pub mode_union : TermMode → TermMode → TermMode
mode_union m n = record {
  alt_screen = m.alt_screen || n.alt_screen;
  bracketed_paste = m.bracketed_paste || n.bracketed_paste;
  mouse_mode = m.mouse_mode || n.mouse_mode;
  app_cursor = m.app_cursor || n.app_cursor;
  app_keypad = m.app_keypad || n.app_keypad;
  focus_in_out = m.focus_in_out || n.focus_in_out;
}

-- The flags of a cell in the snapshots of the terminal, with a bit for struck-out text.
unfoldable pub term_flag_bits : CellFlags → ℕ
term_flag_bits f =
    (if f.bold then 1 else 0)
    + (if f.underlines then 2 else 0)
    + (if f.inverse then 4 else 0)
    + (if f.italic then 8 else 0)
    + (if f.wide_char then 16 else 0)
    + (if f.wide_char_spacer then 32 else 0)
    + (if f.strikeout then 64 else 0)

-- What `snapshot` and `snapshot_range_from` push for a cell.
unfoldable pub term_cell : Palette → Cell → CellSnapshot
unfolding term_flag_bits
term_cell p c = record {
  ch = if c.flags.wide_char_spacer || (c.c == b' ' && is_empty c.flags) then 0 else c.c;
  fg_rgba = color_to_rgba c.fg p;
  bg_rgba = color_to_rgba c.bg p;
  flags = term_flag_bits c.flags;
}

module _ (E : Emulator) (V : Vte) where
  -- `Terminal::mode`.
  unfoldable pub terminal_mode : Terminal E V → ℕ
  unfolding running_grid mode_bits
  terminal_mode t = mode_bits (elim (running_grid E V t.blocks) [
    | some g ↦ mode_union (E.mode t.term) (E.mode g.term)
    | none ↦ E.mode t.term
  ])

  unfoldable pub screen_bottom_line : Terminal E V → ℤ
  screen_bottom_line t = wrap_i32 (wrap_i32 (pos (E.history_size t.term)) +ℤ pos t.rows -ℤ pos 1)

  -- The first line of `snapshot_range_from`, and the line behind its last.
  abbrev pub range_start : ℤ → ℕ → ℤ → ℤ
  range_start history rows start_line =
      min_ℤ (max_ℤ (wrap_i32 (start_line -ℤ history)) (neg_ℤ history)) (pos rows)

  abbrev pub range_end : ℤ → ℕ → ℤ → ℤ → ℤ
  range_end history rows start end_line =
      min_ℤ (max_ℤ (wrap_i32 (end_line -ℤ history)) start) (pos rows)

  -- `snapshot_range`, with `snapshot_range_from`.
  unfoldable pub snapshot_range : Terminal E V → ℤ → ℤ → GridSnapshot
  unfolding term_cell
  snapshot_range t start_line end_line =
      let history = wrap_i32 (pos (E.history_size t.term)) in
      let start = range_start history t.rows start_line in
      let stop = range_end history t.rows start end_line in
      let row_count = as_u16 (max_ℤ (stop -ℤ start) (pos 0)) in
      record {
        cols = t.cols;
        rows = row_count;
        cursor_col = 0;
        cursor_row = row_count;
        display_offset = 0;
        cells =
            grid_cells (λ line col. term_cell t.palette (E.cell t.term line col)) start t.cols
              (pos_part (stop -ℤ start));
      }

  -- The row of the cursor in `snapshot`.
  abbrev pub visible_cursor : ℤ → ℕ → ℕ
  visible_cursor row rows = if in_range row (pos rows) then as_u16 row else rows

  -- `Terminal::snapshot`.
  unfoldable pub terminal_snapshot : Terminal E V → GridSnapshot
  unfolding term_cell
  terminal_snapshot t =
      let offset = wrap_i32 (pos (E.display_offset t.term)) in
      record {
        cols = t.cols;
        rows = t.rows;
        cursor_col = E.cursor_column t.term % 2 ^ 16;
        cursor_row = visible_cursor (wrap_i32 (E.cursor_line t.term +ℤ offset)) t.rows;
        display_offset = pos_part (max_ℤ offset (pos 0));
        cells =
            grid_cells
              (λ row col. term_cell t.palette (E.cell t.term (wrap_i32 (row -ℤ offset)) col))
              (pos 0) t.cols t.rows;
      }
