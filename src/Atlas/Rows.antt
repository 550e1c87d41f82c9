-- ===== src/Atlas/Rows.antt =====
-- Rectangles that are placed in rows, as rust-core/bedterm-core/src/renderer/atlas.rs does.
use bed_term.Prelude.{ℕ, ◌+◌, ◌≤◌, ◌≡◌, refl, ◌⊎◌, inr, List, [], ◌∷◌, arith, Forall}
use bed_term.Atlas.{atlas_px, Rect}

-- Two rectangles have no pixel in common.
abbrev pub AreApart : Rect → Rect → Type 0
AreApart r s = (r.x + r.w ≤ s.x) ⊎ (s.x + s.w ≤ r.x) ⊎ (r.y + r.h ≤ s.y) ⊎ (s.y + s.h ≤ r.y)

abbrev pub AreAllApart : List Rect → Type 0
AreAllApart [] = Unit
AreAllApart (r ∷ rs) = Forall (AreApart r) rs × AreAllApart rs

-- In a row above `cy`, or left of `cx` in the row at `cy`, which is `row` high so far.
abbrev pub IsBehind : ℕ → ℕ → ℕ → Rect → Type 0
IsBehind cx cy row r = (r.y + r.h ≤ cy) ⊎ ((r.y ≡ cy) × (r.h ≤ row) × (r.x + r.w ≤ cx))

-- In the texture, from the row `top` on.
abbrev pub IsWithin : ℕ → Rect → Type 0
IsWithin top r = (top ≤ r.y) × (r.x + r.w ≤ atlas_px) × (r.y + r.h ≤ atlas_px)

-- The rectangles of a part of the texture that begins at `top`, and where the next one may stand.
pub record IsPacked (top cx cy row : ℕ) (rs : List Rect) : Type 0 where
  pub start : top ≤ cy
  pub apart : AreAllApart rs
  pub behind : Forall (IsBehind cx cy row) rs
  pub within : Forall (IsWithin top) rs

pub empty-IsPacked : (top row : ℕ) → IsPacked top 0 top row []
empty-IsPacked top row = record { start = omega arith; apart = tt; behind = tt; within = tt }

IsBehind-wrapped :
    (cx cy row down row' : ℕ) (rs : List Rect)
    → row ≤ down
    → Forall (IsBehind cx cy row) rs
    → Forall (IsBehind 0 (cy + down) row') rs
IsBehind-wrapped cx cy row down row' [] h k = tt
IsBehind-wrapped cx cy row down row' (r ∷ rs) h k =
    (ground (arith, k.0), IsBehind-wrapped cx cy row down row' rs h k.1)

-- The next row begins below the highest rectangle of this one.
pub IsPacked-wrapped :
    (top cx cy row down row' : ℕ) (rs : List Rect)
    → row ≤ down
    → IsPacked top cx cy row rs
    → IsPacked top 0 (cy + down) row' rs
IsPacked-wrapped top cx cy row down row' rs h k = record {
  start = omega (arith, k.start);
  apart = k.apart;
  behind = IsBehind-wrapped cx cy row down row' rs h k.behind;
  within = k.within;
}

behind_apart :
    (cx cy row : ℕ) (r : Rect) (rs : List Rect)
    → r.x ≡ cx
    → r.y ≡ cy
    → Forall (IsBehind cx cy row) rs
    → Forall (AreApart r) rs
behind_apart cx cy row r [] a b k = tt
behind_apart cx cy row r (s ∷ rs) a b k = (ground (arith, k.0), behind_apart cx cy row r rs a b k.1)

IsBehind-more :
    (cx cy row cx' row' : ℕ) (rs : List Rect)
    → cx ≤ cx'
    → row ≤ row'
    → Forall (IsBehind cx cy row) rs
    → Forall (IsBehind cx' cy row') rs
IsBehind-more cx cy row cx' row' [] a b k = tt
IsBehind-more cx cy row cx' row' (s ∷ rs) a b k =
    (ground (arith, k.0), IsBehind-more cx cy row cx' row' rs a b k.1)

-- A rectangle at the place for the next one.
pub IsPacked-placed :
    (top cx cy row row' w h : ℕ) (rs : List Rect)
    → cx + w ≤ atlas_px
    → cy + h ≤ atlas_px
    → h ≤ row'
    → row ≤ row'
    → IsPacked top cx cy row rs
    → IsPacked top (cx + w) cy row' (record { x = cx; y = cy; w = w; h = h } ∷ rs)
IsPacked-placed top cx cy row row' w h rs a b c d k =
    let r : Rect = record { x = cx; y = cy; w = w; h = h } in
    record {
      start = k.start;
      apart = (behind_apart cx cy row r rs refl refl k.behind, k.apart);
      behind = (
        inr (refl, c, omega arith),
        IsBehind-more cx cy row (cx + w) row' rs (omega arith) d k.behind,
      );
      within = ((k.start, a, b), k.within);
    }
