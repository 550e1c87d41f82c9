-- ===== src/Palette/Bounds.antt =====
-- No arithmetic of the colour resolver leaves its machine integer.
use bed_term.Prelude.{
  ℕ, ◌+◌, ◌-◌, ◌*◌, ◌/◌, ◌%◌, ◌≤◌, ◌<◌, ◌≡◌, refl, ◌⊎◌, inl, inr, false, arith, ltb, ◌==◌,
  if◌then◌else◌, Bool-cases,
}
use bed_term.Alacritty.{Rgb, NamedColor, black, red}
use bed_term.Palette.{legacy_default_named, scale, default_indexed}

-- A colour of bytes.
abbrev pub IsRgb : Rgb → Type 0
IsRgb c = (c.r < 256) × (c.g < 256) × (c.b < 256)

legacy_default_named-IsRgb : (n : NamedColor) → IsRgb (legacy_default_named n)
unfolding legacy_default_named
legacy_default_named-IsRgb black = omega arith
legacy_default_named-IsRgb red = omega arith
legacy_default_named-IsRgb _ = omega arith

-- The colour cube as it is meant, with no wrap-around: levels 0, 95, 135, 175, 215 and 255.
abbrev pub cube_level : ℕ → ℕ
cube_level v = if v == 0 then 0 else 55 + v * 40

scale-cube_level : (v : ℕ) → v < 6 → (scale v ≡ cube_level v) × (cube_level v < 256)
unfolding scale
scale-cube_level v h = ground arith

-- On the 240 indices behind the 16 named ones the fallback is the 6 x 6 x 6 cube and then the
-- greyscale ramp from 8 to 238, and none of its sums overflows a byte.
pub default_indexed-cube :
    (i : ℕ)
    → 16 ≤ i
    → i < 256
    → ((i < 232)
        × (default_indexed i ≡ record {
          r = cube_level ((i - 16) / 36);
          g = cube_level ((i - 16) / 6 % 6);
          b = cube_level ((i - 16) % 6);
        }))
      ⊎ ((232 ≤ i)
          × (default_indexed i
              ≡ record { r = 8 + (i - 232) * 10; g = 8 + (i - 232) * 10; b = 8 + (i - 232) * 10 })
          × (8 + (i - 232) * 10 ≤ 238))
unfolding default_indexed
default_indexed-cube i h k =
    let named_out : ltb i 16 ≡ false = ground arith in
    elim (Bool-cases (ltb i 232)) [
      | inl e ↦
          let below : i < 232 = ground arith in
          let r = scale-cube_level ((i - 16) / 36) (omega arith) in
          let g = scale-cube_level ((i - 16) / 6 % 6) (omega arith) in
          let b = scale-cube_level ((i - 16) % 6) (omega arith) in
          inl (below, rw (named_out, e, r.0, g.0, b.0) refl)
      | inr e ↦
          let above : 232 ≤ i = ground arith in
          inr (above, rw (named_out, e) (ground arith), omega arith)
    ]
