-- ===== src/Atlas/Filled.antt =====
-- How the cells fill the rows of the atlas of rust-core/bedterm-core/src/renderer/atlas.rs.
use bed_term.Prelude.{
  ℕ, zero, suc, ◌+◌, ◌*◌, ◌≤◌, ◌<◌, ◌≡◌, refl, inl, inr, Bool, false, ◌||◌, Option, none, some, [],
  ◌∷◌, arith, ltb, leb, ◌==◌, is_some, Bool-cases, Option-cases, if◌then◌else◌,
}
use native.Mathlib.Nat.{suc-mul, mul-le-mul_right}
use bed_term.Prelude.Text.{Text}
use bed_term.Atlas.{
  atlas_px, ui_section_y, GlyphKey, Rect, UiGlyphKey, GlyphAtlas, key_eq, find_slot, ui_key_eq,
  wrap_cell, place_wrapped, place_cell, insert_glyph, Rasters, ensure_drawn, ensure, wrap_ui,
  place_ui_wrapped, pack_ui_bitmap, insert_ui, insert_icon, ui_missing, ui_key, ensure_ui,
  ensure_icon, preload,
}

-- Behind `n` requests for cells: `line` rows of at least `k` cells each, and `used` cells in the row at
-- hand, while `k` wide cells fit in a row and `rows` rows above the section of the texts.
pub record IsFilled (k rows n : ℕ) (a : GlyphAtlas) : Type 0 where
  pub fits : k * (a.cell_w * 2) ≤ atlas_px
  pub above : rows * a.cell_h ≤ ui_section_y
  pub line : ℕ
  pub used : ℕ
  pub at_row : a.cursor_y ≡ line * a.cell_h
  pub at_column : a.cursor_x ≤ used * (a.cell_w * 2)
  pub count : line * k + used ≤ n

pub IsFilled-weaken :
    (k rows n m : ℕ) (a : GlyphAtlas) → n ≤ m → IsFilled k rows n a → IsFilled k rows m a
IsFilled-weaken k rows n m a h f = record {
  fits = f.fits;
  above = f.above;
  line = f.line;
  used = f.used;
  at_row = f.at_row;
  at_column = f.at_column;
  count = omega (arith, f.count, h);
}

full_row :
    (a : GlyphAtlas) (w k used : ℕ)
    → w ≤ a.cell_w * 2
    → k * (a.cell_w * 2) ≤ atlas_px
    → a.cursor_x ≤ used * (a.cell_w * 2)
    → atlas_px < a.cursor_x + w
    → k ≤ used
full_row a w k used n f c o = elim (Bool-cases (leb k used)) [
  | inl e ↦ ground (arith, e)
  | inr e ↦
      let small : suc used ≤ k = ground (arith, e) in
      absurd (
        omega
          (arith, mul-le-mul_right (a.cell_w * 2) small, suc-mul used (a.cell_w * 2), n, f, c, o))
]

wrap_cell-IsFilled :
    (k rows n w : ℕ) (a : GlyphAtlas)
    → w ≤ a.cell_w * 2
    → IsFilled k rows n a
    → IsFilled k rows n (wrap_cell a w)
unfolding wrap_cell
wrap_cell-IsFilled k rows n w a h f = elim (Bool-cases (ltb atlas_px (a.cursor_x + w))) [
  | inl e ↦
      let full = full_row a w k f.used h f.fits f.at_column (ground (arith, e)) in
      rw e (record {
        fits = f.fits;
        above = f.above;
        line = suc f.line;
        used = 0;
        at_row = omega (arith, f.at_row, suc-mul f.line a.cell_h);
        at_column = omega arith;
        count = omega (arith, f.count, full, suc-mul f.line k);
      })
  | inr e ↦ rw e f
]

place_wrapped-IsFilled :
    (k rows n w : ℕ) (a : GlyphAtlas) (key : GlyphKey)
    → w ≤ a.cell_w * 2
    → IsFilled k rows n a
    → IsFilled k rows (suc n) (insert_glyph key (place_wrapped a w))
unfolding insert_glyph place_wrapped
place_wrapped-IsFilled k rows n w a key h f =
    elim (Bool-cases (ltb atlas_px (a.cursor_y + a.cell_h))) [
      | inl e ↦ rw e (record {
        fits = f.fits;
        above = f.above;
        line = f.line;
        used = f.used;
        at_row = f.at_row;
        at_column = f.at_column;
        count = omega (arith, f.count);
      })
      | inr e ↦ rw e (record {
        fits = f.fits;
        above = f.above;
        line = f.line;
        used = suc f.used;
        at_row = f.at_row;
        at_column = omega (arith, f.at_column, h, suc-mul f.used (a.cell_w * 2));
        count = omega (arith, f.count);
      })
    ]

ensure_drawn-IsFilled :
    (k rows n : ℕ) (a : GlyphAtlas) (key : GlyphKey) (wide : Bool) (o : Option Bool)
    → IsFilled k rows n a
    → IsFilled k rows (suc n) (ensure_drawn a key wide o)
unfolding ensure_drawn place_cell
ensure_drawn-IsFilled k rows n a key wide none f =
    IsFilled-weaken k rows n (suc n) a (omega arith) f
ensure_drawn-IsFilled k rows n a key wide (some color) f =
    let w = if wide || color then a.cell_w * 2 else a.cell_w in
    let narrow : w ≤ a.cell_w * 2 = ground arith in
    let same : (wrap_cell a w).cell_w ≡ a.cell_w = unfold wrap_cell in ground arith in
    place_wrapped-IsFilled k rows n w (wrap_cell a w) key (omega (arith, narrow, same))
      (wrap_cell-IsFilled k rows n w a narrow f)

pub ensure-IsFilled :
    (k rows n : ℕ) (p : Rasters) (a : GlyphAtlas) (key : GlyphKey) (wide : Bool)
    → IsFilled k rows n a
    → IsFilled k rows (suc n) (ensure p a key wide)
unfolding ensure
ensure-IsFilled k rows n p a key wide f =
    elim (Bool-cases (is_some (find_slot key_eq key a.glyphs))) [
      | inl e ↦ rw e (IsFilled-weaken k rows n (suc n) a (omega arith) f)
      | inr e ↦ rw e (ensure_drawn-IsFilled k rows n a key wide (p.glyph_raster key) f)
    ]

pub preload-IsFilled :
    (k rows n : ℕ) (p : Rasters) (m ch : ℕ) (a : GlyphAtlas)
    → IsFilled k rows n a
    → IsFilled k rows (m + n) (preload p m ch a)
unfolding preload
preload-IsFilled k rows n p zero ch a f = IsFilled-weaken k rows n (0 + n) a (omega arith) f
preload-IsFilled k rows n p (suc m) ch a f =
    let key : GlyphKey = record { codepoint = ch; bold = false; italic = false } in
    let drawn = ensure p a key false in
    IsFilled-weaken k rows (m + suc n) (suc m + n) (preload p m (suc ch) drawn) (omega arith) (
      preload-IsFilled k rows (suc n) p m (suc ch) drawn (ensure-IsFilled k rows n p a key false f))

-- Texts and icons leave the cells as they are.
unfoldable pub AreSameCells : GlyphAtlas → GlyphAtlas → Type 0
AreSameCells a b =
    (b.cell_w ≡ a.cell_w)
    × (b.cell_h ≡ a.cell_h)
    × (b.cursor_x ≡ a.cursor_x)
    × (b.cursor_y ≡ a.cursor_y)

pack_ui_bitmap-AreSameCells : (a : GlyphAtlas) (w h : ℕ) → AreSameCells a (pack_ui_bitmap a w h).0
unfolding pack_ui_bitmap wrap_ui place_ui_wrapped AreSameCells
pack_ui_bitmap-AreSameCells a w h = ground arith

insert_ui-AreSameCells :
    (key : UiGlyphKey) (r : GlyphAtlas × Option Rect) → AreSameCells r.0 (insert_ui key r).0
unfolding insert_ui AreSameCells
insert_ui-AreSameCells key (a, none) = (refl, refl, refl, refl)
insert_ui-AreSameCells key (a, some r) = (refl, refl, refl, refl)

insert_icon-AreSameCells :
    (key : ℕ) (r : GlyphAtlas × Option Rect) → AreSameCells r.0 (insert_icon key r).0
unfolding insert_icon AreSameCells
insert_icon-AreSameCells key (a, none) = (refl, refl, refl, refl)
insert_icon-AreSameCells key (a, some r) = (refl, refl, refl, refl)

pub IsFilled-AreSameCells :
    (k rows n : ℕ) (a b : GlyphAtlas) → AreSameCells a b → IsFilled k rows n a → IsFilled k rows n b
unfolding AreSameCells
IsFilled-AreSameCells k rows n a b (w, h, x, y) f = record {
  fits = rw w f.fits;
  above = rw h f.above;
  line = f.line;
  used = f.used;
  at_row = rw (y, h) f.at_row;
  at_column = rw (x, w) f.at_column;
  count = f.count;
}

ui_missing-IsFilled :
    (k rows n : ℕ) (a : GlyphAtlas) (key : UiGlyphKey) (o : Option (ℕ × ℕ))
    → IsFilled k rows n a
    → IsFilled k rows n (ui_missing a key o).0
unfolding ui_missing
ui_missing-IsFilled k rows n a key none f = f
ui_missing-IsFilled k rows n a key (some (w, h)) f =
    let packed = pack_ui_bitmap a w h in
    IsFilled-AreSameCells k rows n packed.0 _ (insert_ui-AreSameCells key packed)
      (IsFilled-AreSameCells k rows n a packed.0 (pack_ui_bitmap-AreSameCells a w h) f)

pub ensure_ui-IsFilled :
    (k rows n : ℕ) (p : Rasters) (a : GlyphAtlas) (text : Text) (font_size : ℕ)
    → IsFilled k rows n a
    → IsFilled k rows n (ensure_ui p a text font_size).0
unfolding ensure_ui
ensure_ui-IsFilled k rows n p a [] font_size f = f
ensure_ui-IsFilled k rows n p a (lead ∷ more) font_size f =
    let key = ui_key p lead font_size in
    elim (Option-cases (find_slot ui_key_eq key a.ui_glyphs)) [
      | inl e ↦
          rw (e, ensure_ui)
            (ui_missing-IsFilled k rows n a key (p.ui_raster (lead ∷ more) font_size) f)
      | inr (r, e) ↦ rw (e, ensure_ui) f
    ]

pub ensure_icon-IsFilled :
    (k rows n : ℕ) (p : Rasters) (a : GlyphAtlas) (slot_id : ℕ)
    → IsFilled k rows n a
    → IsFilled k rows n (ensure_icon p a slot_id).0
unfolding ensure_icon
ensure_icon-IsFilled k rows n p a slot_id f =
    let (w, h) = p.icon_size slot_id in
    let packed = pack_ui_bitmap a w h in
    elim (Option-cases (find_slot (λ i j. i == j) slot_id a.icons)) [
      | inl e ↦
          rw (e, ensure_icon)
            (IsFilled-AreSameCells k rows n packed.0 _ (insert_icon-AreSameCells slot_id packed)
              (IsFilled-AreSameCells k rows n a packed.0 (pack_ui_bitmap-AreSameCells a w h) f))
      | inr (r, e) ↦ rw (e, ensure_icon) f
    ]
