-- ===== src/Tests/Screen.antt =====
-- A small emulator to run the terminal on: it shows the text that it has got on its first line, and
-- is on the alternate screen once it has got a form feed.
use bed_term.Prelude.{
  ℕ, zero, Bool, true, false, ◌||◌, Option, none, some, [], ◌∷◌, ◌++◌, ◌==◌, Bytes, length,
  get_elem?,
}
use bed_term.Prelude.Int.{ℤ, pos}
use bed_term.Alacritty.{foreground, background, named, Cell, Emulator}

pub record Page : Type 0 where
  pub text : Bytes
  pub height : ℕ

abbrev has_form_feed : Bytes → Bool
has_form_feed [] = false
has_form_feed (b ∷ bs) = b == 0x0C || has_form_feed bs

abbrev pub plain : ℕ → Cell
plain ch = record {
  c = ch;
  fg = named foreground;
  bg = named background;
  flags = record {
    bold = false;
    underlines = false;
    inverse = false;
    italic = false;
    wide_char = false;
    wide_char_spacer = false;
    strikeout = false;
    other_flags = false;
  };
}

abbrev char_or_blank : Option ℕ → ℕ
char_or_blank none = b' '
char_or_blank (some c) = c

abbrev page_cell : Page → ℤ → ℕ → Cell
page_cell p (pos zero) col = plain (char_or_blank (get_elem? p.text col))
page_cell p line col = plain b' '

abbrev pub pages : Emulator
pages = record {
  Term = Page;
  Processor = Unit;
  new_term = λ cols rows. record { text = []; height = rows };
  new_processor = tt;
  advance = λ p t bytes. (p, record t { text = t.text ++ bytes });
  resize = λ t cols rows. record t { height = rows };
  mode = λ t. record {
    alt_screen = has_form_feed t.text;
    bracketed_paste = true;
    mouse_mode = false;
    app_cursor = false;
    app_keypad = false;
    focus_in_out = false;
  };
  total_lines = λ t. t.height;
  screen_lines = λ t. t.height;
  history_size = λ t. 0;
  cursor_line = λ t. pos 0;
  cursor_column = λ t. length t.text;
  cell = page_cell;
  display_offset = λ t. 0;
  scroll_delta = λ t delta. t;
  scroll_bottom = λ t. t;
}
