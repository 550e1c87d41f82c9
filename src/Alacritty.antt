-- ===== src/Alacritty.antt =====
-- What the core takes from `alacritty_terminal`, which is not part of the repository: its data as
-- the source reads it, and the terminal emulator itself as a parameter.
use bed_term.Prelude.{ℕ, Bool, not, ◌||◌, Bytes}
use bed_term.Prelude.Int.{ℤ}

pub record Rgb : Type 0 where
  pub r : ℕ
  pub g : ℕ
  pub b : ℕ

-- The names that the matches of the source write out; `cursor` stands for any other.
pub data NamedColor : Type 0 where
  black red green yellow blue magenta cyan white : NamedColor
  bright_black bright_red bright_green bright_yellow : NamedColor
  bright_blue bright_magenta bright_cyan bright_white : NamedColor
  dim_black dim_red dim_green dim_yellow dim_blue dim_magenta dim_cyan dim_white : NamedColor
  foreground bright_foreground dim_foreground background cursor : NamedColor

pub data Color : Type 0 where
  spec : Rgb → Color
  named : NamedColor → Color
  indexed : ℕ → Color

-- The flags of a cell that the source tests one by one; `other_flags` says that any more are set.
pub record CellFlags : Type 0 where
  pub bold : Bool
  pub underlines : Bool
  pub inverse : Bool
  pub italic : Bool
  pub wide_char : Bool
  pub wide_char_spacer : Bool
  pub strikeout : Bool
  pub other_flags : Bool

-- `flags.is_empty()`.
abbrev pub is_empty : CellFlags → Bool
is_empty f = not (
    f.bold || f.underlines || f.inverse || f.italic || f.wide_char || f.wide_char_spacer
    || f.strikeout || f.other_flags)

pub record Cell : Type 0 where
  pub c : ℕ
  pub fg : Color
  pub bg : Color
  pub flags : CellFlags

-- The modes that the source tests.
pub record TermMode : Type 0 where
  pub alt_screen : Bool
  pub bracketed_paste : Bool
  pub mouse_mode : Bool
  pub app_cursor : Bool
  pub app_keypad : Bool
  pub focus_in_out : Bool

-- The emulator: `Term<VoidListener>` with its grid, and the `Processor` that feeds it.
pub record Emulator : Type 1 where
  pub Term : Type 0
  pub Processor : Type 0
  pub new_term : ℕ → ℕ → Term
  pub new_processor : Processor
  pub advance : Processor → Term → Bytes → Processor × Term
  pub resize : Term → ℕ → ℕ → Term
  pub mode : Term → TermMode
  pub total_lines : Term → ℕ
  pub screen_lines : Term → ℕ
  pub history_size : Term → ℕ
  pub cursor_line : Term → ℤ
  pub cursor_column : Term → ℕ
  pub cell : Term → ℤ → ℕ → Cell
  pub display_offset : Term → ℕ
  pub scroll_delta : Term → ℤ → Term
  pub scroll_bottom : Term → Term
