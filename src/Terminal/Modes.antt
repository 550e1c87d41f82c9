-- ===== src/Terminal/Modes.antt =====
-- The modes that the host is told.
use bed_term.Prelude.{
  ℕ, ◌/◌, ◌%◌, ◌^◌, ◌≡◌, refl, ap, ◌∙◌, inl, inr, Bool, Option, none, some, List, [], ◌∷◌, arith,
  ◌==◌, Option-cases, Forall,
}
use bed_term.Alacritty.{TermMode, Emulator}
use bed_term.BlockGrid.{BlockGrid}
use bed_term.Blocks.{Block, find_last}
use bed_term.Blocks.Session.{stored, IsRunning}
use bed_term.Blocks.Invariant.{IsSealed}
use bed_term.Blocks.History.{find_last-hit}
use bed_term.Dcs.Sniffer.{Vte}
use bed_term.Terminal.{Terminal, running_grid}
use bed_term.Terminal.Screen.{mode_bits, mode_union, terminal_mode}

-- What the host reads out of the bits.
abbrev pub bit : ℕ → ℕ → Bool
bit n k = n / 2 ^ k % 2 == 1

abbrev pub mode_of : ℕ → TermMode
mode_of n = record {
  alt_screen = bit n 0;
  bracketed_paste = bit n 1;
  mouse_mode = bit n 2;
  app_cursor = bit n 3;
  app_keypad = bit n 4;
  focus_in_out = bit n 5;
}

mode_of-mode_bits : (m : TermMode) → mode_of (mode_bits m) ≡ m
unfolding mode_bits
mode_of-mode_bits m =
    let b0 : bit (mode_bits m) 0 ≡ m.alt_screen = ground arith in
    let b1 : bit (mode_bits m) 1 ≡ m.bracketed_paste = ground arith in
    let b2 : bit (mode_bits m) 2 ≡ m.mouse_mode = ground arith in
    let b3 : bit (mode_bits m) 3 ≡ m.app_cursor = ground arith in
    let b4 : bit (mode_bits m) 4 ≡ m.app_keypad = ground arith in
    let b5 : bit (mode_bits m) 5 ≡ m.focus_in_out = ground arith in
    λ i. record {
      alt_screen = b0 i;
      bracketed_paste = b1 i;
      mouse_mode = b2 i;
      app_cursor = b3 i;
      app_keypad = b4 i;
      focus_in_out = b5 i;
    }

module _ (E : Emulator) (V : Vte) where
  -- The modes of the terminal, and those of the grid of a running command with them.
  abbrev pub effective : TermMode → Option (BlockGrid E) → TermMode
  effective m none = m
  effective m (some g) = mode_union m (E.mode g.term)

  abbrev pub grid_of : Option (Block E) → Option (BlockGrid E)
  grid_of none = none
  grid_of (some b) = b.grid

  find_last-none :
      (xs : List (Block E)) → Forall (IsSealed E) xs → find_last E (λ b. b.is_running) xs ≡ none
  unfolding find_last
  find_last-none [] h = refl
  find_last-none (x ∷ xs) (s, h) = rw (find_last-none xs h, s.0) refl

  running_grid-stored :
      (past : List (Block E)) (o : Option (Block E)) (n : ℕ) (start : Option ℕ)
      → Forall (IsSealed E) past
      → IsRunning E o
      → running_grid E V (stored E past o n start) ≡ grid_of o
  unfolding running_grid
  running_grid-stored past none n start h r = rw (find_last-none past h) refl
  running_grid-stored past (some b) n start h r =
      rw (find_last-hit E (λ c. c.is_running) past b r) refl

  -- The host reads out of the bits of the mode the modes of the terminal, joined with those of
  -- the grid of the block at hand where it has one, given that this block is running and all
  -- others are sealed.
  pub mode_of-terminal_mode :
      (t : Terminal E V) (past : List (Block E)) (o : Option (Block E)) (n : ℕ) (start : Option ℕ)
      → t.blocks ≡ stored E past o n start
      → Forall (IsSealed E) past
      → IsRunning E o
      → mode_of (terminal_mode E V t) ≡ effective (E.mode t.term) (grid_of o)
  unfolding terminal_mode
  mode_of-terminal_mode t past o n start e h r = elim (Option-cases (grid_of o)) [
    | inl m ↦
        let found = ap (running_grid E V) e ∙ running_grid-stored past o n start h r ∙ m in
        rw (found, m) (mode_of-mode_bits (E.mode t.term))
    | inr (g, m) ↦
        let found = ap (running_grid E V) e ∙ running_grid-stored past o n start h r ∙ m in
        rw (found, m) (mode_of-mode_bits (mode_union (E.mode t.term) (E.mode g.term)))
  ]
