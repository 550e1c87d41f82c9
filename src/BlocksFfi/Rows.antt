-- ===== src/BlocksFfi/Rows.antt =====
-- The height that rust-core/bedterm-core/src/blocks_ffi.rs gives a block, and the seal of blocks.rs.
use bed_term.Prelude.{ℕ, ◌-◌, ◌<◌, ◌≤◌, ◌≡◌, ◌^◌, refl, sym, subst, ◌∙◌, Option, some, arith, max}
use bed_term.Prelude.Int.{
  ℤ, pos, ◌≤ℤ◌, ◌-ℤ◌, ◌+ℤ◌, max_ℤ, pos_part, wrap_i32, saturating_add, i32_min,
}
use bed_term.Alacritty.{Emulator}
use bed_term.BlockGrid.{BlockGrid, used_rows, snapshot_raw}
use bed_term.BlockGrid.Frame.{IsSized, used_rows-some, used_rows-snapshot_raw}
use bed_term.Blocks.{Block, sealed_rows, sealed}
use bed_term.BlocksFfi.{body_rows_of}

-- From `start` on there is room for 2^16 rows.
abbrev pub HasRoom : ℤ → Type 0
HasRoom start = (i32_min ≤ℤ start) × (start ≤ℤ pos (2 ^ 31 - 1 - 2 ^ 16))

max_ℤ-pos : (n : ℕ) → max_ℤ (pos n) (pos 1) ≡ pos (max n 1)
max_ℤ-pos n = ground arith

saturating_add-room :
    (start : ℤ) (n : ℕ) → HasRoom start → n ≤ 2 ^ 16 → saturating_add start (pos n) ≡ start +ℤ pos n
saturating_add-room start n h k = ground arith

added-start : (start : ℤ) (n : ℕ) → (start +ℤ pos n) -ℤ start ≡ pos n
added-start start n = ground arith

wrap_i32-pos : (n : ℕ) → n ≤ 2 ^ 16 → wrap_i32 (pos n) ≡ pos n
wrap_i32-pos n h = ground arith

max-room : (n : ℕ) → n ≤ 2 ^ 16 → max n 1 ≤ 2 ^ 16
max-room n h = ground arith

rows-saturating_add :
    (start : ℤ) (n : ℕ)
    → HasRoom start
    → n ≤ 2 ^ 16
    → pos_part (wrap_i32 (saturating_add start (max_ℤ (pos n) (pos 1)) -ℤ start)) ≡ max n 1
rows-saturating_add start n h k =
    let m = max-room n k in
    rw (max_ℤ-pos n, saturating_add-room start (max n 1) h m)
      (rw (added-start start (max n 1), wrap_i32-pos (max n 1) m) refl)

module _ (E : Emulator) where
  used_rows-bound : (g : BlockGrid E) → used_rows E g ≤ 2 ^ 16
  unfolding used_rows
  used_rows-bound g = omega arith

  -- A block that is sealed with a grid of at least a row and fewer than 2^15 lines is frozen with
  -- the snapshot of that grid, the height that the host is told is the number of rows of that
  -- snapshot, and it is at least one; where its first line leaves room for 2^16 rows below the
  -- largest 32-bit integer.
  pub body_rows_of-sealed :
      (b : Block E) (g : BlockGrid E) (line : ℤ) (exit : Option ℤ) (dur : Option ℕ)
      → b.grid ≡ some g
      → IsSized E g
      → HasRoom b.start_line
      → let s = sealed E b line exit dur in
        (s.frozen_snapshot ≡ some (snapshot_raw E g))
        × (body_rows_of E s ≡ (snapshot_raw E g).rows)
        × (0 < body_rows_of E s)
  unfolding body_rows_of sealed sealed_rows
  body_rows_of-sealed b g line exit dur e z h =
      let n = used_rows E g in
      let some_row = used_rows-some E g z in
      let whole : max n 1 ≡ n = ground arith in
      let rows = rows-saturating_add b.start_line n h (used_rows-bound g) ∙ whole in
      rw e (
        refl,
        rows ∙ sym (used_rows-snapshot_raw E g z),
        subst (λ (r : ℕ). 0 < r) (sym rows) some_row,
      )
