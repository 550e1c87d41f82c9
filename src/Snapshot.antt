-- ===== src/Snapshot.antt =====
-- rust-core/bedterm-core/src/snapshot.rs: snapshots of a grid, with the colours of a palette and
-- without. The fields are 16-bit and 32-bit integers, and those of a colour are bytes.
pub mod Cells
pub mod Colors
use bed_term.Prelude.{
  ℕ, ◌+◌, ◌*◌, ◌||◌, Option, none, List, map, ltb, leb, ◌==◌, if◌then◌else◌, get_elem?,
}
use bed_term.Prelude.Lists.{get_elem?}
use bed_term.Alacritty.{
  NamedColor, black, red, green, yellow, blue, magenta, cyan, white, bright_black, bright_red,
  bright_green, bright_yellow, bright_blue, bright_magenta, bright_cyan, bright_white, dim_black,
  dim_red, dim_green, dim_yellow, dim_blue, dim_magenta, dim_cyan, dim_white, foreground,
  bright_foreground, dim_foreground, background, cursor, Color, spec, named, indexed,
}
use bed_term.Palette.{BtRgb24, Palette, of_rgb, default_indexed, pack_rgba}

pub record CellSnapshot : Type 0 where
  pub ch : ℕ
  pub fg_rgba : ℕ
  pub bg_rgba : ℕ
  pub flags : ℕ

pub record GridSnapshot : Type 0 where
  pub cols : ℕ
  pub rows : ℕ
  pub cursor_col : ℕ
  pub cursor_row : ℕ
  pub display_offset : ℕ
  pub cells : List CellSnapshot

-- `GridSnapshot::cell`.
unfoldable pub cell_at : GridSnapshot → ℕ → ℕ → Option CellSnapshot
cell_at s col row =
    if leb s.cols col || leb s.rows row then none else get_elem? s.cells (row * s.cols + col)

pub record BtCellColor : Type 0 where
  pub kind : ℕ
  pub v0 : ℕ
  pub v1 : ℕ
  pub v2 : ℕ

-- `BtCellColor::named`, `indexed` and `spec`.
abbrev pub named_color : ℕ → BtCellColor
named_color slot = record { kind = 0; v0 = slot; v1 = 0; v2 = 0 }

abbrev pub indexed_color : ℕ → BtCellColor
indexed_color i = record { kind = 1; v0 = i; v1 = 0; v2 = 0 }

abbrev pub spec_color : ℕ → ℕ → ℕ → BtCellColor
spec_color r g b = record { kind = 2; v0 = r; v1 = g; v2 = b }

unfoldable pub named_from_slot : ℕ → Palette → BtRgb24
named_from_slot slot p =
    if slot == 0
    then p.default_fg
    else if slot == 1
    then p.default_bg
    else if slot == 2
    then p.ansi 0
    else if slot == 3
    then p.ansi 1
    else if slot == 4
    then p.ansi 2
    else if slot == 5
    then p.ansi 3
    else if slot == 6
    then p.ansi 4
    else if slot == 7
    then p.ansi 5
    else if slot == 8
    then p.ansi 6
    else if slot == 9
    then p.ansi 7
    else if slot == 10
    then p.ansi 8
    else if slot == 11
    then p.ansi 9
    else if slot == 12
    then p.ansi 10
    else if slot == 13
    then p.ansi 11
    else if slot == 14
    then p.ansi 12
    else if slot == 15
    then p.ansi 13
    else if slot == 16
    then p.ansi 14
    else if slot == 17
    then p.ansi 15
    else p.default_fg

-- The colour that `BtCellColor::resolve` packs.
unfoldable pub resolved : BtCellColor → Palette → BtRgb24
unfolding named_from_slot default_indexed
resolved c p =
    if c.kind == 0
    then named_from_slot c.v0 p
    else if c.kind == 1
    then (if ltb c.v0 16 then p.ansi c.v0 else of_rgb (default_indexed c.v0))
    else if c.kind == 2
    then record { r = c.v0; g = c.v1; b = c.v2 }
    else p.default_fg

-- `BtCellColor::resolve`.
unfoldable pub resolve : BtCellColor → Palette → ℕ
unfolding resolved pack_rgba
resolve c p = pack_rgba (resolved c p)

-- The slot byte of a name: the constants of `named_slot`.
unfoldable pub slot_of : NamedColor → ℕ
slot_of foreground = 0
slot_of bright_foreground = 0
slot_of dim_foreground = 0
slot_of background = 1
slot_of black = 2
slot_of dim_black = 2
slot_of red = 3
slot_of dim_red = 3
slot_of green = 4
slot_of dim_green = 4
slot_of yellow = 5
slot_of dim_yellow = 5
slot_of blue = 6
slot_of dim_blue = 6
slot_of magenta = 7
slot_of dim_magenta = 7
slot_of cyan = 8
slot_of dim_cyan = 8
slot_of white = 9
slot_of dim_white = 9
slot_of bright_black = 10
slot_of bright_red = 11
slot_of bright_green = 12
slot_of bright_yellow = 13
slot_of bright_blue = 14
slot_of bright_magenta = 15
slot_of bright_cyan = 16
slot_of bright_white = 17
slot_of cursor = 0

unfoldable pub cell_color_from_alacritty : Color → BtCellColor
unfolding slot_of
cell_color_from_alacritty (spec c) = spec_color c.r c.g c.b
cell_color_from_alacritty (indexed i) = indexed_color i
cell_color_from_alacritty (named n) = named_color (slot_of n)

pub record RawCellSnapshot : Type 0 where
  pub ch : ℕ
  pub fg : BtCellColor
  pub bg : BtCellColor
  pub flags : ℕ

pub record RawGridSnapshot : Type 0 where
  pub cols : ℕ
  pub rows : ℕ
  pub cursor_col : ℕ
  pub cursor_row : ℕ
  pub display_offset : ℕ
  pub cells : List RawCellSnapshot

-- The closure that `RawGridSnapshot::resolve` maps over the cells.
unfoldable pub resolve_cell : Palette → RawCellSnapshot → CellSnapshot
unfolding resolve
resolve_cell p c = record {
  ch = c.ch;
  fg_rgba = resolve c.fg p;
  bg_rgba = resolve c.bg p;
  flags = c.flags;
}

-- `RawGridSnapshot::resolve`.
unfoldable pub resolve_grid : RawGridSnapshot → Palette → GridSnapshot
unfolding resolve_cell
resolve_grid s p = record {
  cols = s.cols;
  rows = s.rows;
  cursor_col = s.cursor_col;
  cursor_row = s.cursor_row;
  display_offset = s.display_offset;
  cells = map (resolve_cell p) s.cells;
}
