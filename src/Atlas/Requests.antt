-- ===== src/Atlas/Requests.antt =====
-- Any requests to the atlas of rust-core/bedterm-core/src/renderer/atlas.rs.
use bed_term.Prelude.{
  ℕ, ◌+◌, ◌*◌, ◌≤◌, max, ◌≡◌, refl, inl, inr, Bool, ◌||◌, Option, none, some, List, [], ◌∷◌, ◌++◌,
  arith, ltb, ◌==◌, Bool-cases, Option-cases, Forall,
}
use bed_term.Prelude.Text.{Text}
use bed_term.Atlas.{
  atlas_px, ui_section_y, GlyphKey, Rect, UiGlyphKey, GlyphAtlas, reset_ui_caches, ui_key_eq,
  find_slot, wrap_ui, place_ui_wrapped, pack_ui_bitmap, insert_ui, insert_icon, Rasters, ensure,
  ui_missing, ui_key, ensure_ui, ensure_icon, new_atlas,
}
use bed_term.Atlas.Rows.{AreApart, AreAllApart, IsBehind, IsWithin, IsPacked, IsPacked-placed}
use bed_term.Atlas.Packed.{
  slots, ui_slots, IsTidy, reset_ui_caches-IsTidy, ensure-IsTidy, new_atlas-IsTidy, wrap_ui-IsTidy,
  wrap_ui_fits,
}

Forall-middle {ℓ κ} :
    {A : Type ℓ} (P : A → Type κ) (x : A) (xs ys : List A)
    → P x
    → Forall P (xs ++ ys)
    → Forall P (xs ++ (x ∷ ys))
Forall-middle P x [] ys p h = (p, h)
Forall-middle P x (y ∷ xs) ys p h = (h.0, Forall-middle P x xs ys p h.1)

AreApart-sym : (r s : Rect) → AreApart r s → AreApart s r
AreApart-sym r s h = ground arith

AreAllApart-middle :
    (r : Rect) (xs ys : List Rect)
    → Forall (AreApart r) (xs ++ ys)
    → AreAllApart (xs ++ ys)
    → AreAllApart (xs ++ (r ∷ ys))
AreAllApart-middle r [] ys f h = (f, h)
AreAllApart-middle r (x ∷ xs) ys f h = (
  Forall-middle (AreApart x) r xs ys (AreApart-sym r x f.0) h.0,
  AreAllApart-middle r xs ys f.1 h.1,
)

IsPacked-middle :
    (top cx cy row : ℕ) (r : Rect) (xs ys : List Rect)
    → IsPacked top cx cy row (r ∷ (xs ++ ys))
    → IsPacked top cx cy row (xs ++ (r ∷ ys))
IsPacked-middle top cx cy row r xs ys h = record {
  start = h.start;
  apart = AreAllApart-middle r xs ys h.apart.0 h.apart.1;
  behind = Forall-middle (IsBehind cx cy row) r xs ys h.behind.0 h.behind.1;
  within = Forall-middle (IsWithin top) r xs ys h.within.0 h.within.1;
}

-- The atlas with a slot that is not in a cache yet.
Placed : GlyphAtlas → Option Rect → Type 0
Placed a none = IsTidy a
Placed a (some r) =
    (a.cell_w * 2 ≤ atlas_px)
    × IsPacked 0 a.cursor_x a.cursor_y a.cell_h (slots a.glyphs)
    × IsPacked ui_section_y a.ui_cursor_x a.ui_cursor_y a.ui_row_height (r ∷ ui_slots a)

place_ui_wrapped-Placed :
    (a : GlyphAtlas) (w h : ℕ)
    → a.ui_cursor_x + w ≤ atlas_px
    → IsTidy a
    → Placed (place_ui_wrapped a w h).0 (place_ui_wrapped a w h).1
unfolding place_ui_wrapped Placed
place_ui_wrapped-Placed a w h k t = elim (Bool-cases (ltb atlas_px (a.ui_cursor_y + h))) [
  | inl e ↦ rw e t
  | inr e ↦ rw e (
    t.narrow,
    t.cells,
    IsPacked-placed ui_section_y a.ui_cursor_x a.ui_cursor_y a.ui_row_height (max a.ui_row_height h)
        w h (ui_slots a) k (ground arith) (omega arith) (omega arith) t.ui,
  )
]

pack_ui_bitmap-Placed :
    (a : GlyphAtlas) (w h : ℕ)
    → w ≤ atlas_px
    → IsTidy a
    → Placed (pack_ui_bitmap a w h).0 (pack_ui_bitmap a w h).1
unfolding pack_ui_bitmap
pack_ui_bitmap-Placed a w h k t = elim (Bool-cases (w == 0 || h == 0)) [
  | inl e ↦ rw e (unfold Placed in t)
  | inr e ↦
      rw e (place_ui_wrapped-Placed (wrap_ui a w) w h (wrap_ui_fits a w k) (wrap_ui-IsTidy a w t))
]

insert_ui-IsTidy :
    (key : UiGlyphKey) (a : GlyphAtlas) (o : Option Rect)
    → Placed a o
    → IsTidy (insert_ui key (a, o)).0
unfolding insert_ui Placed
insert_ui-IsTidy key a none h = h
insert_ui-IsTidy key a (some r) h = record { narrow = h.0; cells = h.1; ui = h.2 }

insert_icon-IsTidy :
    (key : ℕ) (a : GlyphAtlas) (o : Option Rect) → Placed a o → IsTidy (insert_icon key (a, o)).0
unfolding insert_icon Placed
insert_icon-IsTidy key a none h = h
insert_icon-IsTidy key a (some r) h = record {
  narrow = h.0;
  cells = h.1;
  ui =
      IsPacked-middle ui_section_y a.ui_cursor_x a.ui_cursor_y a.ui_row_height r (slots a.ui_glyphs)
        (slots a.icons) h.2;
}

-- No text and no icon is wider than the texture.
pub record IsNarrow (p : Rasters) : Type 0 where
  pub ui_narrow :
      (text : Text) (font_size w h : ℕ) → p.ui_raster text font_size ≡ some (w, h) → w ≤ atlas_px
  pub icon_narrow : (slot_id : ℕ) → (p.icon_size slot_id).0 ≤ atlas_px

ui_missing-IsTidy :
    (a : GlyphAtlas) (key : UiGlyphKey) (o : Option (ℕ × ℕ))
    → ((w h : ℕ) → o ≡ some (w, h) → w ≤ atlas_px)
    → IsTidy a
    → IsTidy (ui_missing a key o).0
unfolding ui_missing
ui_missing-IsTidy a key none n t = t
ui_missing-IsTidy a key (some (w, h)) n t =
    insert_ui-IsTidy key (pack_ui_bitmap a w h).0 (pack_ui_bitmap a w h).1
      (pack_ui_bitmap-Placed a w h (n w h refl) t)

ensure_ui-IsTidy :
    (p : Rasters) (a : GlyphAtlas) (text : Text) (font_size : ℕ)
    → IsNarrow p
    → IsTidy a
    → IsTidy (ensure_ui p a text font_size).0
unfolding ensure_ui
ensure_ui-IsTidy p a [] font_size n t = t
ensure_ui-IsTidy p a (lead ∷ more) font_size n t =
    let key = ui_key p lead font_size in
    elim (Option-cases (find_slot ui_key_eq key a.ui_glyphs)) [
      | inl e ↦
          rw (e, ensure_ui)
            (ui_missing-IsTidy a key (p.ui_raster (lead ∷ more) font_size)
              (n.ui_narrow (lead ∷ more) font_size) t)
      | inr (r, e) ↦ rw (e, ensure_ui) t
    ]

ensure_icon-IsTidy :
    (p : Rasters) (a : GlyphAtlas) (slot_id : ℕ)
    → IsNarrow p
    → IsTidy a
    → IsTidy (ensure_icon p a slot_id).0
unfolding ensure_icon
ensure_icon-IsTidy p a slot_id n t =
    let (w, h) = p.icon_size slot_id in
    elim (Option-cases (find_slot (λ i j. i == j) slot_id a.icons)) [
      | inl e ↦
          rw (e, ensure_icon)
            (insert_icon-IsTidy slot_id (pack_ui_bitmap a w h).0 (pack_ui_bitmap a w h).1
              (pack_ui_bitmap-Placed a w h (n.icon_narrow slot_id) t))
      | inr (r, e) ↦ rw (e, ensure_icon) t
    ]

pub data Request : Type 0 where
  cell : GlyphKey → Bool → Request
  ui_text : Text → ℕ → Request
  icon : ℕ → Request
  reset_ui : Request

unfoldable pub serve : Rasters → GlyphAtlas → Request → GlyphAtlas
serve p a (cell key wide) = ensure p a key wide
serve p a (ui_text text font_size) = (ensure_ui p a text font_size).0
serve p a (icon slot_id) = (ensure_icon p a slot_id).0
serve p a reset_ui = reset_ui_caches a

unfoldable pub serve_all : Rasters → GlyphAtlas → List Request → GlyphAtlas
serve_all p a [] = a
serve_all p a (q ∷ qs) = serve_all p (serve p a q) qs

serve-IsTidy :
    (p : Rasters) (a : GlyphAtlas) (q : Request) → IsNarrow p → IsTidy a → IsTidy (serve p a q)
unfolding serve
serve-IsTidy p a (cell key wide) n t = ensure-IsTidy p a key wide t
serve-IsTidy p a (ui_text text font_size) n t = ensure_ui-IsTidy p a text font_size n t
serve-IsTidy p a (icon slot_id) n t = ensure_icon-IsTidy p a slot_id n t
serve-IsTidy p a reset_ui n t = reset_ui_caches-IsTidy a t

serve_all-IsTidy :
    (p : Rasters) (a : GlyphAtlas) (qs : List Request)
    → IsNarrow p
    → IsTidy a
    → IsTidy (serve_all p a qs)
unfolding serve_all
serve_all-IsTidy p a [] n t = t
serve_all-IsTidy p a (q ∷ qs) n t = serve_all-IsTidy p (serve p a q) qs n (serve-IsTidy p a q n t)

-- Whatever glyphs, texts and icons are asked for, in whatever order and with the caches reset in
-- between, the cells of the atlas lie in the texture and have no pixel in common, and so do the
-- slots of the texts and icons, below the line where their section starts; for cells of at most
-- half the width of the texture, and texts and icons not wider than it.
pub serve_all-new_atlas :
    (p : Rasters) (width height : ℕ) (qs : List Request)
    → IsNarrow p
    → max width 1 * 2 ≤ atlas_px
    → IsTidy (serve_all p (new_atlas p width height) qs)
serve_all-new_atlas p width height qs n h =
    serve_all-IsTidy p (new_atlas p width height) qs n (new_atlas-IsTidy p width height h)
