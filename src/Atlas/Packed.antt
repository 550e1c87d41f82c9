-- ===== src/Atlas/Packed.antt =====
-- The slots of rust-core/bedterm-core/src/renderer/atlas.rs do not overlap, in either section.
use bed_term.Prelude.{
  ℕ, zero, suc, ◌+◌, ◌-◌, ◌*◌, ◌≤◌, max, ◌≡◌, inl, inr, Bool, false, ◌||◌, Option, none, some, List,
  ◌++◌, map, arith, ltb, if◌then◌else◌, Bool-cases, is_some,
}
use bed_term.Atlas.{
  atlas_px, ui_section_y, GlyphKey, Rect, GlyphAtlas, empty_atlas, reset_ui_caches, key_eq,
  find_slot, wrap_cell, place_wrapped, place_cell, insert_glyph, wrap_ui, Rasters, ensure_drawn,
  ensure, preload, new_atlas,
}
use bed_term.Atlas.Rows.{IsPacked, empty-IsPacked, IsPacked-wrapped, IsPacked-placed}

abbrev pub slots {ℓ} : {K : Type ℓ} → List (K × Rect) → List Rect
slots = map λ e. e.1

abbrev pub ui_slots : GlyphAtlas → List Rect
ui_slots a = slots a.ui_glyphs ++ slots a.icons

-- The cells are packed from the top, and the rest from `ui_section_y` on.
pub record IsTidy (a : GlyphAtlas) : Type 0 where
  pub narrow : a.cell_w * 2 ≤ atlas_px
  pub cells : IsPacked 0 a.cursor_x a.cursor_y a.cell_h (slots a.glyphs)
  pub ui : IsPacked ui_section_y a.ui_cursor_x a.ui_cursor_y a.ui_row_height (ui_slots a)

empty_atlas-IsTidy :
    (width height : ℕ) → max width 1 * 2 ≤ atlas_px → IsTidy (empty_atlas width height)
unfolding empty_atlas
empty_atlas-IsTidy width height h = record {
  narrow = h;
  cells = empty-IsPacked 0 (max height 1);
  ui = empty-IsPacked ui_section_y 0;
}

pub reset_ui_caches-IsTidy : (a : GlyphAtlas) → IsTidy a → IsTidy (reset_ui_caches a)
unfolding reset_ui_caches
reset_ui_caches-IsTidy a h = record {
  narrow = h.narrow;
  cells = h.cells;
  ui = empty-IsPacked ui_section_y 0;
}

wrap_cell-IsTidy : (a : GlyphAtlas) (w : ℕ) → IsTidy a → IsTidy (wrap_cell a w)
unfolding wrap_cell
wrap_cell-IsTidy a w h = elim (Bool-cases (ltb atlas_px (a.cursor_x + w))) [
  | inl e ↦ rw e (record {
    narrow = h.narrow;
    cells =
        IsPacked-wrapped 0 a.cursor_x a.cursor_y a.cell_h a.cell_h a.cell_h (slots a.glyphs)
          (omega arith) h.cells;
    ui = h.ui;
  })
  | inr e ↦ rw e h
]

wrap_cell_fits :
    (a : GlyphAtlas) (w : ℕ)
    → w ≤ atlas_px
    → ((wrap_cell a w).cursor_x + w ≤ atlas_px) × ((wrap_cell a w).cell_w ≡ a.cell_w)
unfolding wrap_cell
wrap_cell_fits a w h = ground arith

place_wrapped-IsTidy :
    (a : GlyphAtlas) (w : ℕ) (key : GlyphKey)
    → a.cursor_x + w ≤ atlas_px
    → IsTidy a
    → IsTidy (insert_glyph key (place_wrapped a w))
unfolding insert_glyph place_wrapped
place_wrapped-IsTidy a w key k h = elim (Bool-cases (ltb atlas_px (a.cursor_y + a.cell_h))) [
  | inl e ↦ rw e h
  | inr e ↦ rw e (record {
    narrow = h.narrow;
    cells =
        IsPacked-placed 0 a.cursor_x a.cursor_y a.cell_h a.cell_h w a.cell_h (slots a.glyphs) k
          (ground arith) (omega arith) (omega arith) h.cells;
    ui = h.ui;
  })
]

slot_fits :
    (a : GlyphAtlas) (wide : Bool) → IsTidy a → (if wide then a.cell_w * 2 else a.cell_w) ≤ atlas_px
slot_fits a wide h = ground (arith, h.narrow)

ensure_drawn-IsTidy :
    (a : GlyphAtlas) (key : GlyphKey) (wide : Bool) (o : Option Bool)
    → IsTidy a
    → IsTidy (ensure_drawn a key wide o)
unfolding ensure_drawn place_cell
ensure_drawn-IsTidy a key wide none h = h
ensure_drawn-IsTidy a key wide (some color) h =
    let w = if wide || color then a.cell_w * 2 else a.cell_w in
    place_wrapped-IsTidy (wrap_cell a w) w key
      (wrap_cell_fits a w (slot_fits a (wide || color) h)).0 (wrap_cell-IsTidy a w h)

pub ensure-IsTidy :
    (p : Rasters) (a : GlyphAtlas) (key : GlyphKey) (wide : Bool)
    → IsTidy a
    → IsTidy (ensure p a key wide)
unfolding ensure
ensure-IsTidy p a key wide h = elim (Bool-cases (is_some (find_slot key_eq key a.glyphs))) [
  | inl e ↦ rw e h
  | inr e ↦ rw e (ensure_drawn-IsTidy a key wide (p.glyph_raster key) h)
]

preload-IsTidy : (p : Rasters) (n ch : ℕ) (a : GlyphAtlas) → IsTidy a → IsTidy (preload p n ch a)
unfolding preload
preload-IsTidy p zero ch a h = h
preload-IsTidy p (suc n) ch a h =
    let key : GlyphKey = record { codepoint = ch; bold = false; italic = false } in
    preload-IsTidy p n (suc ch) (ensure p a key false) (ensure-IsTidy p a key false h)

pub new_atlas-IsTidy :
    (p : Rasters) (width height : ℕ)
    → max width 1 * 2 ≤ atlas_px
    → IsTidy (new_atlas p width height)
unfolding new_atlas
new_atlas-IsTidy p width height h =
    preload-IsTidy p (0x7F - 0x20) 0x20 (empty_atlas width height)
      (empty_atlas-IsTidy width height h)

pub wrap_ui-IsTidy : (a : GlyphAtlas) (w : ℕ) → IsTidy a → IsTidy (wrap_ui a w)
unfolding wrap_ui
wrap_ui-IsTidy a w h = elim (Bool-cases (ltb atlas_px (a.ui_cursor_x + w))) [
  | inl e ↦ rw e (record {
    narrow = h.narrow;
    cells = h.cells;
    ui =
        IsPacked-wrapped ui_section_y a.ui_cursor_x a.ui_cursor_y a.ui_row_height
          (max a.ui_row_height 1) 0 (ui_slots a) (omega arith) h.ui;
  })
  | inr e ↦ rw e h
]

pub wrap_ui_fits :
    (a : GlyphAtlas) (w : ℕ) → w ≤ atlas_px → (wrap_ui a w).ui_cursor_x + w ≤ atlas_px
unfolding wrap_ui
wrap_ui_fits a w h = ground arith
