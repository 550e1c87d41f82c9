-- ===== src/Snapshot/Colors.antt =====
-- A colour that is stored without a palette and resolved later is the colour of the live terminal.
use bed_term.Prelude.{◌≡◌, refl, ap}
use bed_term.Alacritty.{NamedColor, black, red, Color, spec, named, indexed}
use bed_term.Palette.{Palette, named_from_palette, pack_rgba, color_to_rgba}
use bed_term.Snapshot.{named_from_slot, resolved, resolve, slot_of, cell_color_from_alacritty}

named_from_slot-slot_of :
    (n : NamedColor) (p : Palette) → named_from_slot (slot_of n) p ≡ named_from_palette n p
unfolding slot_of named_from_slot named_from_palette
named_from_slot-slot_of black p = refl
named_from_slot-slot_of red p = refl
named_from_slot-slot_of _ p = refl

-- For every palette, resolving the stored form of a colour gives what `color_to_rgba` gives for
-- the colour itself.
pub resolve-cell_color_from_alacritty :
    (c : Color) (p : Palette) → resolve (cell_color_from_alacritty c) p ≡ color_to_rgba c p
unfolding resolve resolved cell_color_from_alacritty color_to_rgba
resolve-cell_color_from_alacritty (spec c) p = refl
resolve-cell_color_from_alacritty (indexed i) p = refl
resolve-cell_color_from_alacritty (named n) p = ap pack_rgba (named_from_slot-slot_of n p)
