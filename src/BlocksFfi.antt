-- ===== src/BlocksFfi.antt =====
-- rust-core/bedterm-core/src/blocks_ffi.rs, and the handle of ffi.rs: the blocks as the host reads
-- them. A pointer into the scratch buffer is an offset in it, and a null pointer is none.
pub mod Strings
pub mod Rows
use bed_term.Prelude.{
  ℕ, true, false, Option, none, some, Bool, length, ltb, ◌++◌, [], if◌then◌else◌, is_some,
  get_elem?, Bytes,
}
use bed_term.Prelude.Int.{ℤ, pos, negsuc, pos_part, ◌-ℤ◌, wrap_i32}
use mathlib.Core.Option
use bed_term.Alacritty.{Emulator}
use bed_term.Dcs.Sniffer.{Vte}
use bed_term.CliAgent.{CliAgent, ffi_tag}
use bed_term.Snapshot.{GridSnapshot}
use bed_term.BlockGrid.{BlockGrid, used_rows}
use bed_term.Blocks.{Block}
use bed_term.Terminal.{Terminal}

-- A `u8` that is a flag.
abbrev pub flag : Bool → ℕ
flag b = if b then 1 else 0

pub record BtBlockView : Type 0 where
  pub id : ℕ
  pub start_line : ℤ
  pub end_line : ℤ
  pub is_running : ℕ
  pub has_exit_code : ℕ
  pub exit_code : ℤ
  pub duration_ms : ℕ
  pub has_duration : ℕ
  pub command : Option ℕ
  pub command_len : ℕ
  pub cwd : Option ℕ
  pub cwd_len : ℕ
  pub git_branch : Option ℕ
  pub git_branch_len : ℕ
  pub has_frozen_snapshot : ℕ
  pub cli_agent : ℕ
  pub body_rows : ℕ

-- A string behind the scratch buffer: the buffer with it, where it starts, and its length.
abbrev pub packed : Bytes → Option Bytes → Bytes × ℕ × ℕ
packed scratch none = (scratch, 0, 0)
packed scratch (some text) = (scratch ++ text, length scratch, length text)

abbrev pub pointer : ℕ → ℕ → Option ℕ
pointer offset len = if ltb 0 len then some offset else none

abbrev pub code_of : Option ℤ → ℤ
code_of none = pos 0
code_of (some c) = c

abbrev pub duration_of : Option ℕ → ℕ
duration_of none = 0
duration_of (some d) = d

abbrev pub agent_tag : Option CliAgent → ℕ
agent_tag none = 0
agent_tag (some a) = ffi_tag a

module _ (E : Emulator) where
  -- The rows of a running block.
  abbrev pub live_rows : Option (BlockGrid E) → ℕ
  live_rows none = 1
  live_rows (some g) = used_rows E g

  unfoldable pub body_rows_of : Block E → ℕ
  body_rows_of b =
      if b.is_running then live_rows b.grid else pos_part (wrap_i32 (b.end_line -ℤ b.start_line))

  -- The scratch buffer and the view that a block is copied to.
  unfoldable pub block_view : Block E → Bytes × BtBlockView
  unfolding body_rows_of
  block_view b =
      let (s1, command_offset, command_len) = packed [] (some b.command) in
      let (s2, cwd_offset, cwd_len) = packed s1 b.working_directory in
      let (s3, branch_offset, branch_len) = packed s2 b.git_branch in
      (
        s3,
        record {
          id = b.id;
          start_line = b.start_line;
          end_line = b.end_line;
          is_running = flag b.is_running;
          has_exit_code = flag (is_some b.exit_code);
          exit_code = code_of b.exit_code;
          duration_ms = duration_of b.duration_ms;
          has_duration = flag (is_some b.duration_ms);
          command = pointer command_offset command_len;
          command_len = command_len;
          cwd = pointer cwd_offset cwd_len;
          cwd_len = cwd_len;
          git_branch = pointer branch_offset branch_len;
          git_branch_len = branch_len;
          has_frozen_snapshot = flag (is_some b.frozen_snapshot);
          cli_agent = agent_tag b.cli_agent;
          body_rows = body_rows_of b;
        },
      )

module _ (E : Emulator) (V : Vte) where
  pub record BtTerm : Type 0 where
    pub inner : Terminal E V
    pub cached : Option GridSnapshot
    pub block_string_scratch : Bytes

  -- On a null handle the count is 0.
  unfoldable pub bt_term_block_count : Option BtTerm → ℕ
  bt_term_block_count none = 0
  bt_term_block_count (some h) = length h.inner.blocks.blocks

  -- What is written where the block is found.
  abbrev pub write_block :
      BtTerm → BtBlockView → Option (Block E) → Option BtTerm × Option BtBlockView × ℤ
  write_block h out none = (some h, some out, negsuc 0)
  write_block h out (some b) =
      let (scratch, view) = block_view E b in
      (some (record h { block_string_scratch = scratch }), some view, pos 0)

  -- The handle and the target, either null or not, behind the call, and its result.
  unfoldable pub bt_term_block_at :
      Option BtTerm → ℕ → Option BtBlockView → Option BtTerm × Option BtBlockView × ℤ
  bt_term_block_at none idx out = (none, out, negsuc 0)
  bt_term_block_at (some h) idx none = (some h, none, negsuc 0)
  bt_term_block_at (some h) idx (some out) = write_block h out (get_elem? h.inner.blocks.blocks idx)
