-- ===== src/Tests/Shown.antt =====
-- blocks_ffi.rs at a concrete terminal.
use bed_term.Prelude.{◌<◌, ◌≡◌, refl, none, some, [], ◌∷◌, arith, Bytes}
use bed_term.Prelude.Int.{pos}
use bed_term.BlockGrid.{snapshot_raw}
use bed_term.Blocks.{sealed}
use bed_term.Dcs.Sniffer.Toy.{toy}
use bed_term.BlocksFfi.{BtBlockView, body_rows_of, BtTerm, bt_term_block_at}
use bed_term.BlocksFfi.Strings.{IsShown, bt_term_block_at-block}
use bed_term.BlocksFfi.Rows.{body_rows_of-sealed}
use bed_term.Tests.Screen.{pages}
use bed_term.Tests.Grid.{listing, listing-IsSized}
use bed_term.Tests.Session.{at_work}
use bed_term.Tests.Feed.{busy}

abbrev handle : BtTerm pages toy
handle = record { inner = busy; cached = none; block_string_scratch = 1 ∷ [] }

abbrev blank_view : BtBlockView
blank_view = record {
  id = 0;
  start_line = pos 0;
  end_line = pos 0;
  is_running = 0;
  has_exit_code = 0;
  exit_code = pos 0;
  duration_ms = 0;
  has_duration = 0;
  command = none;
  command_len = 0;
  cwd = none;
  cwd_len = 0;
  git_branch = none;
  git_branch_len = 0;
  has_frozen_snapshot = 0;
  cli_agent = 0;
  body_rows = 0;
}

bt_term_block_at-block_example :
    (scratch : Bytes) × (v : BtBlockView) × (bt_term_block_at pages toy
        (some handle)
        1
        (some blank_view)
      ≡ (some (record handle { block_string_scratch = scratch }), some v, pos 0))
    × IsShown at_work scratch v
bt_term_block_at-block_example = bt_term_block_at-block pages toy handle 1 blank_view at_work refl

body_rows_of-sealed_example :
    let s = sealed pages at_work (pos 9) (some (pos 0)) none in
    (s.frozen_snapshot ≡ some (snapshot_raw pages listing))
    × (body_rows_of pages s ≡ (snapshot_raw pages listing).rows)
    × (0 < body_rows_of pages s)
body_rows_of-sealed_example =
    body_rows_of-sealed pages at_work listing (pos 9) (some (pos 0)) none refl listing-IsSized
      (omega arith, omega arith)
