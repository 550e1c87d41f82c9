-- ===== src/Tests/Session.antt =====
-- blocks.rs at a concrete session.
use bed_term.Prelude.{◌+◌, ◌%◌, ◌^◌, ◌≡◌, refl, true, false, none, some, List, [], ◌∷◌, ◌++◌, arith}
use bed_term.Prelude.Int.{pos, negsuc}
use bed_term.Prelude.Text.{codes}
use bed_term.Utf8.{chars}
use bed_term.CliAgent.{detect}
use bed_term.BlockGrid.{new_grid, snapshot_raw}
use bed_term.Dcs.Body.{precmd, preexec, command_finished}
use bed_term.Blocks.{block_end_line_running, Block, apply}
use bed_term.Blocks.Session.{Session, stored, store_of, closed, session_apply, apply-session_apply}
use bed_term.Blocks.Invariant.{IsSession}
use bed_term.Blocks.History.{Arrival, replay, replay-IsSession, arrival, apply-cycle}
use bed_term.Tests.Screen.{pages}
use bed_term.Tests.Grid.{listing}

-- A block whose command runs, and one whose command is over.
abbrev pub at_work : Block pages
at_work = record {
  id = 2;
  command = codes "ls";
  start_line = pos 4;
  end_line = block_end_line_running;
  frozen_snapshot = none;
  exit_code = none;
  duration_ms = none;
  working_directory = some (codes "/tmp");
  git_branch = none;
  cli_agent = none;
  grid = some listing;
  is_running = true;
  stylized_command = [];
  stylized_output = codes "ls";
  stylized_command_lines = 0;
  stylized_output_lines = 0;
}

abbrev pub over : Block pages
over = record at_work {
  id = 1;
  end_line = pos 6;
  exit_code = some (pos 0);
  grid = none;
  is_running = false;
}

abbrev pub demo : Session pages
demo = record {
  past = over ∷ [];
  current = some at_work;
  next_id = 3;
  command_start = some 5000000;
}

demo-IsSession : IsSession pages demo
demo-IsSession = record {
  numbered = omega arith;
  past_sealed = ((refl, refl, omega arith), tt);
  current_open = (refl, refl, refl, refl, refl, (omega arith, omega arith));
  past_counted = ((omega arith, omega arith, omega arith, omega arith), tt);
  current_counted = (omega arith, omega arith, omega arith, omega arith);
}

apply-session_apply_example :
    apply pages (store_of pages demo) (command_finished (pos 1)) (pos 9) 9000000 80 24
    ≡ some
        (store_of pages (session_apply pages demo (command_finished (pos 1)) (pos 9) 9000000 80 24))
apply-session_apply_example =
    apply-session_apply pages demo (command_finished (pos 1)) (pos 9) 9000000 80 24 refl

abbrev stream : List Arrival
stream =
    arrival pages (precmd none none) (pos 9) 6000000 80 24
    ∷ arrival pages (preexec (codes "claude")) (pos 10) 7000000 80 24
    ∷ []

replay-IsSession_example :
    (v' : Session pages) × (replay pages (store_of pages demo) stream ≡ some (store_of pages v'))
    × IsSession pages v'
    × ((more : List (Block pages)) × (v'.past ≡ demo.past ++ more))
replay-IsSession_example =
    replay-IsSession pages demo stream demo-IsSession
      ((omega arith, omega arith), ((omega arith, omega arith), tt)) (omega arith)

apply-cycle_example :
    (b : Block pages) × (replay pages (store_of pages demo) (
        arrival pages (precmd none none) (pos 9) 1 80 24
        ∷ arrival pages (preexec (codes "vim")) (pos 10) 1000000 80 24
        ∷ arrival pages (command_finished (negsuc 0)) (pos 10) 8000000 80 24
        ∷ [])
      ≡ some (
          stored pages
            (closed pages demo.past demo.current (pos 9) none none ++ b ∷ [])
            none
            ((3 + 1) % 2 ^ 64)
            none))
    × (b.id ≡ 3)
    × (b.command ≡ codes "vim")
    × (b.cli_agent ≡ detect (chars (codes "vim")))
    × (b.working_directory ≡ none)
    × (b.git_branch ≡ none)
    × (b.exit_code ≡ some (negsuc 0))
    × (b.duration_ms ≡ some 7)
    × (b.start_line ≡ pos 10)
    × (b.frozen_snapshot ≡ some (snapshot_raw pages (new_grid pages 80 24)))
    × (b.is_running ≡ false)
apply-cycle_example =
    apply-cycle pages demo none none (codes "vim") (negsuc 0) (pos 9) (pos 10) (pos 10) 1 1000000
      8000000 80 24 refl
