-- ===== src/Atlas/Sections.antt =====
-- The two sections of the atlas of rust-core/bedterm-core/src/renderer/atlas.rs, and where they meet.
use bed_term.Prelude.{ℕ, ◌+◌, ◌≤◌, ◌*◌, max, inl, inr, List, [], ◌∷◌, arith, Forall}
use bed_term.Atlas.{atlas_px, ui_section_y, Rect, GlyphAtlas, Rasters, new_atlas}
use bed_term.Atlas.Requests.{IsNarrow, Request, serve_all, serve_all-new_atlas}
use bed_term.Atlas.Rows.{AreApart, IsBehind, IsWithin}
use bed_term.Atlas.Packed.{slots, ui_slots, IsTidy}

above_apart :
    (r : Rect) (rs : List Rect)
    → r.y + r.h ≤ ui_section_y
    → Forall (IsWithin ui_section_y) rs
    → Forall (AreApart r) rs
above_apart r [] a h = tt
above_apart r (s ∷ rs) a h = (inr (inr (inl (omega (arith, h.0)))), above_apart r rs a h.1)

cells_above :
    (cx cy row : ℕ) (rs ui : List Rect)
    → cy + row ≤ ui_section_y
    → Forall (IsBehind cx cy row) rs
    → Forall (IsWithin ui_section_y) ui
    → Forall (λ r. Forall (AreApart r) ui) rs
cells_above cx cy row [] ui a h k = tt
cells_above cx cy row (r ∷ rs) ui a h k =
    let low : r.y + r.h ≤ ui_section_y = ground (arith, h.0) in
    (above_apart r ui low k, cells_above cx cy row rs ui a h.1 k)

-- While the row of the cells ends above the section of the texts, no cell meets a slot of it.
pub sections_apart :
    (a : GlyphAtlas)
    → IsTidy a
    → a.cursor_y + a.cell_h ≤ ui_section_y
    → Forall (λ r. Forall (AreApart r) (ui_slots a)) (slots a.glyphs)
sections_apart a t h =
    cells_above a.cursor_x a.cursor_y a.cell_h (slots a.glyphs) (ui_slots a) h t.cells.behind
      t.ui.within

-- The same of the atlas behind any requests.
pub serve_all-sections :
    (p : Rasters) (width height : ℕ) (qs : List Request)
    → IsNarrow p
    → max width 1 * 2 ≤ atlas_px
    → (serve_all p (new_atlas p width height) qs).cursor_y
        + (serve_all p (new_atlas p width height) qs).cell_h
      ≤ ui_section_y
    → let a = serve_all p (new_atlas p width height) qs in
      Forall (λ r. Forall (AreApart r) (ui_slots a)) (slots a.glyphs)
serve_all-sections p width height qs n h k =
    sections_apart _ (serve_all-new_atlas p width height qs n h) k
