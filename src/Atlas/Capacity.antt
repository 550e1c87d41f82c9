-- ===== src/Atlas/Capacity.antt =====
-- How many cells the atlas of rust-core/bedterm-core/src/renderer/atlas.rs takes before their rows come
-- down to the section of the texts.
use bed_term.Prelude.{
  ℕ, suc, ◌+◌, ◌*◌, ◌-◌, ◌≤◌, ◌<◌, max, refl, inl, inr, List, [], ◌∷◌, arith, leb, Bool-cases,
  Forall,
}
use native.Mathlib.Nat.{suc-mul, mul-le-mul_right}
use bed_term.Atlas.{
  atlas_px, ui_section_y, GlyphAtlas, empty_atlas, reset_ui_caches, Rasters, ensure, ensure_ui,
  ensure_icon, new_atlas,
}
use bed_term.Atlas.Rows.{AreApart}
use bed_term.Atlas.Packed.{slots, ui_slots}
use bed_term.Atlas.Requests.{IsNarrow, Request, cell, ui_text, icon, reset_ui, serve, serve_all}
use bed_term.Atlas.Sections.{serve_all-sections}
use bed_term.Atlas.Filled.{
  IsFilled, IsFilled-weaken, ensure-IsFilled, preload-IsFilled, AreSameCells, IsFilled-AreSameCells,
  ensure_ui-IsFilled, ensure_icon-IsFilled,
}

-- How many cells are asked for.
abbrev pub cells_in : List Request → ℕ
cells_in [] = 0
cells_in (cell key wide ∷ qs) = suc (cells_in qs)
cells_in (_ ∷ qs) = cells_in qs

serve_all-IsFilled :
    (k rows n : ℕ) (p : Rasters) (a : GlyphAtlas) (qs : List Request)
    → IsFilled k rows n a
    → IsFilled k rows (cells_in qs + n) (serve_all p a qs)
unfolding serve_all serve
serve_all-IsFilled k rows n p a [] f = IsFilled-weaken k rows n (0 + n) a (omega arith) f
serve_all-IsFilled k rows n p a (cell key wide ∷ qs) f =
    let drawn = ensure p a key wide in
    IsFilled-weaken k rows (cells_in qs + suc n) (suc (cells_in qs) + n) (serve_all p drawn qs)
      (omega arith)
      (serve_all-IsFilled k rows (suc n) p drawn qs (ensure-IsFilled k rows n p a key wide f))
serve_all-IsFilled k rows n p a (ui_text text font_size ∷ qs) f =
    serve_all-IsFilled k rows n p (ensure_ui p a text font_size).0 qs
      (ensure_ui-IsFilled k rows n p a text font_size f)
serve_all-IsFilled k rows n p a (icon slot_id ∷ qs) f =
    serve_all-IsFilled k rows n p (ensure_icon p a slot_id).0 qs
      (ensure_icon-IsFilled k rows n p a slot_id f)
serve_all-IsFilled k rows n p a (reset_ui ∷ qs) f =
    serve_all-IsFilled k rows n p (reset_ui_caches a) qs (
      IsFilled-AreSameCells k rows n a (reset_ui_caches a)
        (unfold reset_ui_caches AreSameCells in (refl, refl, refl, refl)) f)

empty_atlas-IsFilled :
    (k rows width height : ℕ)
    → k * (max width 1 * 2) ≤ atlas_px
    → rows * max height 1 ≤ ui_section_y
    → IsFilled k rows 0 (empty_atlas width height)
unfolding empty_atlas
empty_atlas-IsFilled k rows width height h r = record {
  fits = h;
  above = r;
  line = 0;
  used = 0;
  at_row = omega arith;
  at_column = omega arith;
  count = omega arith;
}

-- Where fewer cells are asked for than the rows above the section hold, the row at hand is one of
-- them.
IsFilled-above :
    (k rows n : ℕ) (a : GlyphAtlas)
    → n < rows * k
    → IsFilled k rows n a
    → a.cursor_y + a.cell_h ≤ ui_section_y
IsFilled-above k rows n a h f = elim (Bool-cases (leb rows f.line)) [
  | inl e ↦
      let past : rows ≤ f.line = ground (arith, e) in
      absurd (omega (arith, mul-le-mul_right k past, f.count, h))
  | inr e ↦
      let before : suc f.line ≤ rows = ground (arith, e) in
      omega (arith, mul-le-mul_right a.cell_h before, suc-mul f.line a.cell_h, f.above, f.at_row)
]

-- Where the rows above the section of the texts and icons hold more wide cells than the 95 of
-- ASCII and those that are asked for, then whatever is asked for, in whatever order, no cell has
-- a pixel in common with a slot of that section: of `rows` rows with `k` wide cells each, for
-- cells of at most half the width of the texture, and texts and icons not wider than it.
pub serve_all-capacity :
    (p : Rasters) (width height k rows : ℕ) (qs : List Request)
    → IsNarrow p
    → max width 1 * 2 ≤ atlas_px
    → k * (max width 1 * 2) ≤ atlas_px
    → rows * max height 1 ≤ ui_section_y
    → 95 + cells_in qs < rows * k
    → let a = serve_all p (new_atlas p width height) qs in
      Forall (λ r. Forall (AreApart r) (ui_slots a)) (slots a.glyphs)
serve_all-capacity p width height k rows qs n w h r c =
    let empty = empty_atlas-IsFilled k rows width height h r in
    let ascii = preload-IsFilled k rows 0 p (0x7F - 0x20) 0x20 (empty_atlas width height) empty in
    let start : IsFilled k rows 95 (new_atlas p width height) = unfold new_atlas in ascii in
    let all = serve_all-IsFilled k rows 95 p (new_atlas p width height) qs start in
    serve_all-sections p width height qs n w
      (IsFilled-above k rows (cells_in qs + 95) _ (omega (arith, c)) all)
