-- ===== src/Palette.antt =====
-- The colours of rust-core/bedterm-core/src/term.rs: the palette, and the resolver of the live
-- terminal. A colour component is a byte, and so below 256.
pub mod Bounds
use bed_term.Prelude.{ℕ, ◌+◌, ◌-◌, ◌*◌, ◌/◌, ◌%◌, ◌^◌, ltb, ◌==◌, if◌then◌else◌}
use bed_term.Alacritty.{
  Rgb, NamedColor, black, red, green, yellow, blue, magenta, cyan, white, bright_black, bright_red,
  bright_green, bright_yellow, bright_blue, bright_magenta, bright_cyan, bright_white, dim_black,
  dim_red, dim_green, dim_yellow, dim_blue, dim_magenta, dim_cyan, dim_white, foreground,
  bright_foreground, dim_foreground, background, cursor, Color, spec, named, indexed,
}

pub record BtRgb24 : Type 0 where
  pub r : ℕ
  pub g : ℕ
  pub b : ℕ

-- `ansi` is an array of 16 colours, read at indices below 16.
pub record Palette : Type 0 where
  pub default_fg : BtRgb24
  pub default_bg : BtRgb24
  pub ansi : ℕ → BtRgb24

abbrev rgb : ℕ → ℕ → ℕ → Rgb
rgb r g b = record { r = r; g = g; b = b }

-- The field-by-field copy that the source writes at each conversion.
abbrev pub of_rgb : Rgb → BtRgb24
of_rgb c = record { r = c.r; g = c.g; b = c.b }

unfoldable pub legacy_default_named : NamedColor → Rgb
legacy_default_named black = rgb 0x00 0x00 0x00
legacy_default_named dim_black = rgb 0x00 0x00 0x00
legacy_default_named red = rgb 0xCC 0x33 0x33
legacy_default_named dim_red = rgb 0xCC 0x33 0x33
legacy_default_named green = rgb 0x33 0xCC 0x33
legacy_default_named dim_green = rgb 0x33 0xCC 0x33
legacy_default_named yellow = rgb 0xCC 0xCC 0x33
legacy_default_named dim_yellow = rgb 0xCC 0xCC 0x33
legacy_default_named blue = rgb 0x33 0x66 0xCC
legacy_default_named dim_blue = rgb 0x33 0x66 0xCC
legacy_default_named magenta = rgb 0xCC 0x33 0xCC
legacy_default_named dim_magenta = rgb 0xCC 0x33 0xCC
legacy_default_named cyan = rgb 0x33 0xCC 0xCC
legacy_default_named dim_cyan = rgb 0x33 0xCC 0xCC
legacy_default_named white = rgb 0xCC 0xCC 0xCC
legacy_default_named dim_white = rgb 0xCC 0xCC 0xCC
legacy_default_named bright_black = rgb 0x55 0x55 0x55
legacy_default_named bright_red = rgb 0xFF 0x55 0x55
legacy_default_named bright_green = rgb 0x55 0xFF 0x55
legacy_default_named bright_yellow = rgb 0xFF 0xFF 0x55
legacy_default_named bright_blue = rgb 0x55 0x55 0xFF
legacy_default_named bright_magenta = rgb 0xFF 0x55 0xFF
legacy_default_named bright_cyan = rgb 0x55 0xFF 0xFF
legacy_default_named bright_white = rgb 0xFF 0xFF 0xFF
legacy_default_named foreground = rgb 0xCC 0xCC 0xCC
legacy_default_named bright_foreground = rgb 0xCC 0xCC 0xCC
legacy_default_named dim_foreground = rgb 0xCC 0xCC 0xCC
legacy_default_named background = rgb 0x00 0x00 0x00
legacy_default_named cursor = rgb 0xCC 0xCC 0xCC

-- The match on an index below 16, of which the last arm takes the rest.
unfoldable pub base_named : ℕ → NamedColor
base_named i =
    if i == 0
    then black
    else if i == 1
    then red
    else if i == 2
    then green
    else if i == 3
    then yellow
    else if i == 4
    then blue
    else if i == 5
    then magenta
    else if i == 6
    then cyan
    else if i == 7
    then white
    else if i == 8
    then bright_black
    else if i == 9
    then bright_red
    else if i == 10
    then bright_green
    else if i == 11
    then bright_yellow
    else if i == 12
    then bright_blue
    else if i == 13
    then bright_magenta
    else if i == 14
    then bright_cyan
    else bright_white

-- The closure `scale`, on a byte.
scale : ℕ → ℕ
scale v = if v == 0 then 0 else (55 + v * 40 % 256) % 256

unfoldable pub default_indexed : ℕ → Rgb
unfolding scale
default_indexed i =
    if ltb i 16
    then legacy_default_named (base_named i)
    else if ltb i 232
    then (let idx = i - 16 in rgb (scale (idx / 36)) (scale (idx / 6 % 6)) (scale (idx % 6)))
    else (let level = (8 + (i - 232) * 10 % 256) % 256 in rgb level level level)

-- `Palette::default()`.
unfoldable pub default_palette : Palette
unfolding base_named legacy_default_named
default_palette = record {
  default_fg = of_rgb (legacy_default_named foreground);
  default_bg = of_rgb (legacy_default_named background);
  ansi = λ i. of_rgb (legacy_default_named (base_named i));
}

unfoldable pub named_from_palette : NamedColor → Palette → BtRgb24
named_from_palette foreground p = p.default_fg
named_from_palette bright_foreground p = p.default_fg
named_from_palette dim_foreground p = p.default_fg
named_from_palette background p = p.default_bg
named_from_palette black p = p.ansi 0
named_from_palette dim_black p = p.ansi 0
named_from_palette red p = p.ansi 1
named_from_palette dim_red p = p.ansi 1
named_from_palette green p = p.ansi 2
named_from_palette dim_green p = p.ansi 2
named_from_palette yellow p = p.ansi 3
named_from_palette dim_yellow p = p.ansi 3
named_from_palette blue p = p.ansi 4
named_from_palette dim_blue p = p.ansi 4
named_from_palette magenta p = p.ansi 5
named_from_palette dim_magenta p = p.ansi 5
named_from_palette cyan p = p.ansi 6
named_from_palette dim_cyan p = p.ansi 6
named_from_palette white p = p.ansi 7
named_from_palette dim_white p = p.ansi 7
named_from_palette bright_black p = p.ansi 8
named_from_palette bright_red p = p.ansi 9
named_from_palette bright_green p = p.ansi 10
named_from_palette bright_yellow p = p.ansi 11
named_from_palette bright_blue p = p.ansi 12
named_from_palette bright_magenta p = p.ansi 13
named_from_palette bright_cyan p = p.ansi 14
named_from_palette bright_white p = p.ansi 15
named_from_palette cursor p = p.default_fg

-- `(r << 24) | (g << 16) | (b << 8) | 0xFF`: the shifted bytes share no bit.
unfoldable pub pack_rgba : BtRgb24 → ℕ
pack_rgba c = c.r * 2 ^ 24 + c.g * 2 ^ 16 + c.b * 2 ^ 8 + 0xFF

unfoldable pub color_to_rgba : Color → Palette → ℕ
unfolding named_from_palette pack_rgba default_indexed
color_to_rgba (spec c) p = pack_rgba (of_rgb c)
color_to_rgba (named n) p = pack_rgba (named_from_palette n p)
color_to_rgba (indexed i) p = pack_rgba (if ltb i 16 then p.ansi i else of_rgb (default_indexed i))
