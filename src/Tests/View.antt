-- ===== src/Tests/View.antt =====
-- What a concrete terminal shows.
use bed_term.Prelude.{◌≡◌, refl, true, some, [], ◌∷◌, arith}
use bed_term.Alacritty.{Cell}
use bed_term.Dcs.Sniffer.Toy.{toy}
use bed_term.Terminal.Screen.{terminal_mode}
use bed_term.Terminal.Modes.{mode_of, effective, grid_of, mode_of-terminal_mode}
use bed_term.Tests.Screen.{plain, pages}
use bed_term.Tests.Session.{at_work, over}
use bed_term.Tests.Feed.{busy}

mode_of-terminal_mode_example :
    mode_of (terminal_mode pages toy busy)
    ≡ effective pages toy (pages.mode busy.term) (grid_of pages toy (some at_work))
mode_of-terminal_mode_example =
    mode_of-terminal_mode pages toy busy (over ∷ []) (some at_work) 3 (some 5000000) refl
      ((refl, refl, omega arith), tt) refl

-- A cell that is struck out.
abbrev struck : Cell
struck = record (plain b'x') { flags = record ((plain b'x').flags) { strikeout = true } }
