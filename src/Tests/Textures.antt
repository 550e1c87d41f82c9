-- ===== src/Tests/Textures.antt =====
-- renderer/atlas.rs at a concrete font.
use bed_term.Prelude.{◌≡◌, Forall, refl, true, false, some, List, [], ◌∷◌, arith}
use bed_term.Prelude.Text.{codes}
use bed_term.Atlas.{
  GlyphKey, GlyphAtlas, empty_atlas, key_eq, find_slot, wrap_cell, place_wrapped, place_cell,
  insert_glyph, wrap_ui, place_ui_wrapped, pack_ui_bitmap, insert_icon, Rasters, ensure_drawn,
  ensure, ensure_icon, preload, new_atlas,
}
use bed_term.Atlas.Rows.{AreApart}
use bed_term.Atlas.Packed.{IsTidy, slots, ui_slots}
use bed_term.Atlas.Requests.{IsNarrow, Request, cell, ui_text, icon, serve_all, serve_all-new_atlas}
use bed_term.Atlas.Capacity.{serve_all-capacity}

-- Every glyph is drawn, without colour; a text takes 20 by 30 pixels, and an icon 64 by 64.
abbrev font : Rasters
font = record {
  glyph_raster = λ key. some false;
  ui_raster = λ text font_size. some (20, 30);
  px_hundredths = λ font_size. 1300;
  icon_size = λ slot_id. (64, 64);
}

font-IsNarrow : IsNarrow font
font-IsNarrow = record {
  ui_narrow = λ text font_size w h e. ground arith;
  icon_narrow = λ slot_id. omega arith;
}

-- A wide character, a text and two icons.
abbrev drawn : List Request
drawn =
    cell (record { codepoint = 0x6f22; bold = true; italic = false }) true
    ∷ ui_text (codes "main") 13
    ∷ icon 3
    ∷ icon 4
    ∷ []

serve_all-new_atlas_example : IsTidy (serve_all font (new_atlas font 16 32) drawn)
serve_all-new_atlas_example = serve_all-new_atlas font 16 32 drawn font-IsNarrow (omega arith)

-- Cells of 300 by 200 pixels: the ASCII glyphs alone pass the row where the icons begin.
abbrev large : GlyphAtlas
large = new_atlas font 300 200

abbrev greater_than : GlyphKey
greater_than = record { codepoint = 62; bold = false; italic = false }

large_glyph :
    find_slot key_eq greater_than large.glyphs ≡ some (record { x = 0; y = 1000; w = 300; h = 200 })
unfolding new_atlas preload ensure ensure_drawn place_cell place_wrapped wrap_cell insert_glyph
    empty_atlas find_slot
large_glyph = refl

large_icon : (ensure_icon font large 3).1 ≡ some (record { x = 0; y = 1024; w = 64; h = 64 })
unfolding ensure_icon new_atlas preload ensure ensure_drawn place_cell place_wrapped wrap_cell
    insert_glyph empty_atlas find_slot pack_ui_bitmap wrap_ui place_ui_wrapped insert_icon
large_icon = refl

-- 64 wide cells of 16 pixels fit in a row, and 32 rows of 32 pixels above the section.
serve_all-capacity_example :
    let a = serve_all font (new_atlas font 16 32) drawn in
    Forall (λ r. Forall (AreApart r) (ui_slots a)) (slots a.glyphs)
serve_all-capacity_example =
    serve_all-capacity font 16 32 64 32 drawn font-IsNarrow (omega arith) (omega arith)
      (omega arith) (omega arith)
