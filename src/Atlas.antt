-- ===== src/Atlas.antt =====
-- rust-core/bedterm-core/src/renderer/atlas.rs: where the glyphs and the icons stand in the texture that
-- the renderer shares among them. A slot is its rectangle in pixels. What the font system and the
-- icon decoder give is a parameter; the pixels are left out.
pub mod Rows
pub mod Packed
pub mod Requests
pub mod Sections
pub mod Filled
pub mod Capacity
use bed_term.Prelude.Text.{Text}
use bed_term.Prelude.{
  ℕ, zero, suc, ◌+◌, ◌-◌, ◌*◌, max, Bool, false, ◌&&◌, ◌||◌, Option, none, some, List, [], ◌∷◌, ltb,
  ◌==◌, if◌then◌else◌, bool_eq, is_some,
}

abbrev pub atlas_px : ℕ
atlas_px = 2048

abbrev pub ui_section_y : ℕ
ui_section_y = 1024

pub record GlyphKey : Type 0 where
  pub codepoint : ℕ
  pub bold : Bool
  pub italic : Bool

-- A slot, without the offsets to the pen.
pub record Rect : Type 0 where
  pub x : ℕ
  pub y : ℕ
  pub w : ℕ
  pub h : ℕ

pub record UiGlyphKey : Type 0 where
  pub ui_codepoint : ℕ
  pub font_px_hundredths : ℕ

-- An icon is known by its number.
pub record GlyphAtlas : Type 0 where
  pub cell_w : ℕ
  pub cell_h : ℕ
  pub glyphs : List (GlyphKey × Rect)
  pub cursor_x : ℕ
  pub cursor_y : ℕ
  pub ui_glyphs : List (UiGlyphKey × Rect)
  pub icons : List (ℕ × Rect)
  pub ui_cursor_x : ℕ
  pub ui_cursor_y : ℕ
  pub ui_row_height : ℕ

-- The atlas before the ASCII glyphs are loaded.
unfoldable pub empty_atlas : ℕ → ℕ → GlyphAtlas
empty_atlas width height = record {
  cell_w = max width 1;
  cell_h = max height 1;
  glyphs = [];
  cursor_x = 0;
  cursor_y = 0;
  ui_glyphs = [];
  icons = [];
  ui_cursor_x = 0;
  ui_cursor_y = ui_section_y;
  ui_row_height = 0;
}

unfoldable pub reset_ui_caches : GlyphAtlas → GlyphAtlas
reset_ui_caches a = record a {
  ui_glyphs = [];
  icons = [];
  ui_cursor_x = 0;
  ui_cursor_y = ui_section_y;
  ui_row_height = 0;
}

abbrev pub key_eq : GlyphKey → GlyphKey → Bool
key_eq a b = a.codepoint == b.codepoint && (bool_eq a.bold b.bold && bool_eq a.italic b.italic)

abbrev pub ui_key_eq : UiGlyphKey → UiGlyphKey → Bool
ui_key_eq a b = a.ui_codepoint == b.ui_codepoint && a.font_px_hundredths == b.font_px_hundredths

-- `HashMap::get`.
unfoldable pub find_slot {ℓ} : {K : Type ℓ} → (K → K → Bool) → K → List (K × Rect) → Option Rect
find_slot eq k [] = none
find_slot eq k ((j, r) ∷ rest) = if eq j k then some r else find_slot eq k rest

-- The row to place a cell in: the next one where the slot does not fit.
unfoldable pub wrap_cell : GlyphAtlas → ℕ → GlyphAtlas
wrap_cell a slot_w =
    if ltb atlas_px (a.cursor_x + slot_w)
    then record a { cursor_x = 0; cursor_y = a.cursor_y + a.cell_h }
    else a

unfoldable pub place_wrapped : GlyphAtlas → ℕ → GlyphAtlas × Option Rect
place_wrapped a slot_w = if ltb atlas_px (a.cursor_y + a.cell_h) then (a, none) else (
  record a { cursor_x = a.cursor_x + slot_w },
  some (record { x = a.cursor_x; y = a.cursor_y; w = slot_w; h = a.cell_h }),
)

-- `rasterize_and_upload` behind the rasterizer.
unfoldable pub place_cell : GlyphAtlas → Bool → GlyphAtlas × Option Rect
unfolding place_wrapped
place_cell a wide =
    let slot_w = if wide then a.cell_w * 2 else a.cell_w in
    place_wrapped (wrap_cell a slot_w) slot_w

unfoldable pub insert_glyph : GlyphKey → GlyphAtlas × Option Rect → GlyphAtlas
insert_glyph key (a, none) = a
insert_glyph key (a, some r) = record a { glyphs = (key, r) ∷ a.glyphs }

unfoldable pub wrap_ui : GlyphAtlas → ℕ → GlyphAtlas
wrap_ui a w =
    if ltb atlas_px (a.ui_cursor_x + w)
    then record a {
      ui_cursor_y = a.ui_cursor_y + max a.ui_row_height 1;
      ui_cursor_x = 0;
      ui_row_height = 0;
    }
    else a

unfoldable pub place_ui_wrapped : GlyphAtlas → ℕ → ℕ → GlyphAtlas × Option Rect
place_ui_wrapped a w h = if ltb atlas_px (a.ui_cursor_y + h) then (a, none) else (
  record a { ui_cursor_x = a.ui_cursor_x + w; ui_row_height = max a.ui_row_height h },
  some (record { x = a.ui_cursor_x; y = a.ui_cursor_y; w = w; h = h }),
)

unfoldable pub pack_ui_bitmap : GlyphAtlas → ℕ → ℕ → GlyphAtlas × Option Rect
unfolding place_ui_wrapped
pack_ui_bitmap a w h = if w == 0 || h == 0 then (a, none) else place_ui_wrapped (wrap_ui a w) w h

unfoldable pub insert_ui : UiGlyphKey → GlyphAtlas × Option Rect → GlyphAtlas × Option Rect
insert_ui key (a, none) = (a, none)
insert_ui key (a, some r) = (record a { ui_glyphs = (key, r) ∷ a.ui_glyphs }, some r)

unfoldable pub insert_icon : ℕ → GlyphAtlas × Option Rect → GlyphAtlas × Option Rect
insert_icon key (a, none) = (a, none)
insert_icon key (a, some r) = (record a { icons = (key, r) ∷ a.icons }, some r)

-- What the platform gives: whether a glyph can be drawn, and is coloured; the size of a text at a font
-- size, which is any `f32`, by its bits; how many hundredths of a pixel such a size has; the size of an
-- icon.
pub record Rasters : Type 0 where
  pub glyph_raster : GlyphKey → Option Bool
  pub ui_raster : Text → ℕ → Option (ℕ × ℕ)
  pub px_hundredths : ℕ → ℕ
  pub icon_size : ℕ → ℕ × ℕ

-- The key of a text, by its first character.
abbrev pub ui_key : Rasters → ℕ → ℕ → UiGlyphKey
ui_key p lead font_size = record {
  ui_codepoint = lead;
  font_px_hundredths = p.px_hundredths font_size;
}

unfoldable pub ensure_drawn : GlyphAtlas → GlyphKey → Bool → Option Bool → GlyphAtlas
unfolding insert_glyph
ensure_drawn a key wide none = a
ensure_drawn a key wide (some is_color) = insert_glyph key (place_cell a (wide || is_color))

unfoldable pub ensure : Rasters → GlyphAtlas → GlyphKey → Bool → GlyphAtlas
unfolding ensure_drawn
ensure p a key wide =
    if is_some (find_slot key_eq key a.glyphs)
    then a
    else ensure_drawn a key wide (p.glyph_raster key)

unfoldable pub ui_missing : GlyphAtlas → UiGlyphKey → Option (ℕ × ℕ) → GlyphAtlas × Option Rect
unfolding insert_ui
ui_missing a key none = (a, none)
ui_missing a key (some (w, h)) = insert_ui key (pack_ui_bitmap a w h)

unfoldable pub ensure_ui : Rasters → GlyphAtlas → Text → ℕ → GlyphAtlas × Option Rect
unfolding ui_missing
ensure_ui p a [] font_size = (a, none)
ensure_ui p a (lead ∷ more) font_size =
    let key = ui_key p lead font_size in
    elim (find_slot ui_key_eq key a.ui_glyphs) [
      | some r ↦ (a, some r)
      | none ↦ ui_missing a key (p.ui_raster (lead ∷ more) font_size)
    ]

unfoldable pub ensure_icon : Rasters → GlyphAtlas → ℕ → GlyphAtlas × Option Rect
unfolding insert_icon
ensure_icon p a slot_id = elim (find_slot (λ i j. i == j) slot_id a.icons) [
  | some r ↦ (a, some r)
  | none ↦ insert_icon slot_id (pack_ui_bitmap a (p.icon_size slot_id).0 (p.icon_size slot_id).1)
]

-- The loop of `preload_ascii`, over the code points from `ch` on.
unfoldable pub preload : Rasters → ℕ → ℕ → GlyphAtlas → GlyphAtlas
preload p zero ch a = a
preload p (suc n) ch a =
    preload p n (suc ch)
      (ensure p a (record { codepoint = ch; bold = false; italic = false }) false)

-- `new`, given the size of a cell.
unfoldable pub new_atlas : Rasters → ℕ → ℕ → GlyphAtlas
new_atlas p width height = preload p (0x7F - 0x20) 0x20 (empty_atlas width height)
