-- ===== src/Blocks.antt =====
-- rust-core/bedterm-core/src/blocks.rs: the blocks of a session, as the shell's events make them.
-- An `Instant` is a number of nanoseconds. An operation that indexes `blocks` is `none` where the
-- index is out of range and the source panics.
pub mod Capture
pub mod Session
pub mod Invariant
pub mod History
use bed_term.Prelude.{
  ℕ, zero, suc, ◌+◌, ◌-◌, ◌/◌, ◌%◌, ◌^◌, Bool, true, false, not, Option, none, some, List, [], ◌∷◌,
  ◌++◌, map, leb, ◌==◌, if◌then◌else◌, ◌>>=◌, is_some, Bytes, length, get_elem?,
}
use bed_term.Prelude.Int.{ℤ, pos, ◌-ℤ◌, max_ℤ, wrap_i32, i32_min, saturating_add}
use mathlib.Core.Option
use bed_term.Utf8.{chars}
use bed_term.CliAgent.{CliAgent, detect}
use bed_term.Dcs.Body.{DcsEvent, precmd, preexec, command_finished}
use bed_term.Alacritty.{Emulator}
use bed_term.Snapshot.{RawGridSnapshot}
use bed_term.BlockGrid.{BlockGrid, new_grid, resize_grid, used_rows, snapshot_raw}

abbrev pub max_block_output_lines : ℕ
max_block_output_lines = 5000

-- `BLOCK_END_LINE_RUNNING`.
abbrev pub block_end_line_running : ℤ
block_end_line_running = i32_min

-- The loop of `Block::append_capped`, on the buffer and its number of lines.
unfoldable pub append_capped : Bytes → ℕ → Bytes → Bytes × ℕ
append_capped buf lines [] = (buf, lines)
append_capped buf lines (b ∷ bs) =
    let rest =
      append_capped (buf ++ b ∷ []) (if b == 0x0A then (lines + 1) % 2 ^ 32 else lines) bs in
    if leb max_block_output_lines lines then (buf, lines) else rest

-- `blocks[i] = x`, at an index in range.
abbrev pub set_at : {A : Type 0} → List A → ℕ → A → List A
set_at [] i y = []
set_at (x ∷ xs) zero y = y ∷ xs
set_at (x ∷ xs) (suc i) y = x ∷ set_at xs i y

-- `now.saturating_duration_since(start).as_millis() as u64`.
abbrev pub elapsed_ms : ℕ → ℕ → ℕ
elapsed_ms start now = (now - start) / 1000000 % 2 ^ 64

module _ (E : Emulator) where
  pub record Block : Type 0 where
    pub id : ℕ
    pub command : Bytes
    pub start_line : ℤ
    pub end_line : ℤ
    pub frozen_snapshot : Option RawGridSnapshot
    pub exit_code : Option ℤ
    pub duration_ms : Option ℕ
    pub working_directory : Option Bytes
    pub git_branch : Option Bytes
    pub cli_agent : Option CliAgent
    pub grid : Option (BlockGrid E)
    pub is_running : Bool
    pub stylized_command : Bytes
    pub stylized_output : Bytes
    pub stylized_command_lines : ℕ
    pub stylized_output_lines : ℕ

  unfoldable pub append_output_bytes : Block → Bytes → Block
  unfolding append_capped
  append_output_bytes b bytes =
      let (out, lines) = append_capped b.stylized_output b.stylized_output_lines bytes in
      record b { stylized_output = out; stylized_output_lines = lines }

  unfoldable pub append_command_bytes : Block → Bytes → Block
  unfolding append_capped
  append_command_bytes b bytes =
      let (out, lines) = append_capped b.stylized_command b.stylized_command_lines bytes in
      record b { stylized_command = out; stylized_command_lines = lines }

  pub record BlockStore : Type 0 where
    pub blocks : List Block
    pub next_id : ℕ
    pub open_index : Option ℕ
    pub command_start : Option ℕ

  -- `BlockStore::new`.
  unfoldable pub new_store : BlockStore
  new_store = record { blocks = []; next_id = 1; open_index = none; command_start = none }

  -- `BlockStore::reset`.
  unfoldable pub reset : BlockStore → BlockStore
  reset s = record s { blocks = []; open_index = none; command_start = none }

  -- The block that `open_new` pushes.
  unfoldable pub fresh_block : ℕ → ℤ → Option Bytes → Option Bytes → Block
  fresh_block id line pwd branch = record {
    id = id;
    command = [];
    start_line = line;
    end_line = block_end_line_running;
    frozen_snapshot = none;
    exit_code = none;
    duration_ms = none;
    working_directory = pwd;
    git_branch = branch;
    cli_agent = none;
    grid = none;
    is_running = true;
    stylized_command = [];
    stylized_output = [];
    stylized_command_lines = 0;
    stylized_output_lines = 0;
  }

  unfoldable pub open_new : BlockStore → ℤ → Option Bytes → Option Bytes → BlockStore
  unfolding fresh_block
  open_new s line pwd branch = record s {
    blocks = s.blocks ++ fresh_block s.next_id line pwd branch ∷ [];
    next_id = (s.next_id + 1) % 2 ^ 64;
    open_index = some (length s.blocks);
  }

  -- The snapshot and the number of rows that a block is sealed with.
  unfoldable pub sealed_rows : Block → ℤ → Option (BlockGrid E) → Option RawGridSnapshot × ℤ
  unfolding snapshot_raw used_rows
  sealed_rows b line none = (none, wrap_i32 (saturating_add line (pos 1) -ℤ b.start_line))
  sealed_rows b line (some g) = (some (snapshot_raw E g), pos (used_rows E g))

  -- What `seal_with` makes of the open block.
  unfoldable pub sealed : Block → ℤ → Option ℤ → Option ℕ → Block
  unfolding sealed_rows
  sealed b line exit dur =
      let (snap, rows) = sealed_rows b line b.grid in
      record b {
        is_running = false;
        end_line = saturating_add b.start_line (max_ℤ rows (pos 1));
        frozen_snapshot = snap;
        grid = none;
        exit_code = exit;
        duration_ms = dur;
      }

  unfoldable pub seal_with : BlockStore → ℤ → Option ℤ → Option ℕ → Option BlockStore
  unfolding sealed
  seal_with s line exit dur = elim s.open_index [
    | none ↦ some s
    | some idx ↦ do
      b ← get_elem? s.blocks idx
      some (
          if b.is_running
          then record s { blocks = set_at s.blocks idx (sealed b line exit dur); open_index = none }
          else s)
  ]

  unfoldable pub seal_open : BlockStore → ℤ → Option ℤ → Option BlockStore
  unfolding seal_with
  seal_open s line exit = seal_with s line exit none

  -- `if self.open_index.is_none()`.
  unfoldable pub ensure_open : BlockStore → ℤ → BlockStore
  unfolding open_new
  ensure_open s line = elim s.open_index [ none ↦ open_new s line none none | some idx ↦ s ]

  -- What `Preexec` makes of the open block.
  unfoldable pub started : Block → ℤ → Bytes → ℕ → ℕ → Block
  unfolding new_grid detect chars
  started b line command cols rows = record b {
    command = command;
    cli_agent = detect (chars command);
    start_line = line;
    grid = elim b.grid [ none ↦ some (new_grid E cols rows) | some g ↦ some g ];
  }

  unfoldable pub start_command : BlockStore → ℤ → Bytes → ℕ → ℕ → Option BlockStore
  unfolding started
  start_command s line command cols rows = elim s.open_index [
    | none ↦ some s
    | some idx ↦ do
      b ← get_elem? s.blocks idx
      some (record s { blocks = set_at s.blocks idx (started b line command cols rows) })
  ]

  -- `BlockStore::apply`. No colour is resolved in it, and it has no palette here.
  unfoldable pub apply : BlockStore → DcsEvent → ℤ → ℕ → ℕ → ℕ → Option BlockStore
  unfolding seal_open open_new ensure_open start_command seal_with
  apply s (precmd pwd branch) line now cols rows = do
    s' ← seal_open s line none
    some (open_new s' line pwd branch)
  apply s (preexec command) line now cols rows = do
    s' ← start_command (ensure_open s line) line command cols rows
    some (record s' { command_start = some now })
  apply s (command_finished code) line now cols rows =
      let dur = Option.map (λ start. elapsed_ms start now) s.command_start in
      seal_with (record s { command_start = none }) line (some code) dur

  -- `open_block_mut`, to read; what is written to it goes back by `set_open`.
  unfoldable pub open_block : BlockStore → Option Block
  open_block s = s.open_index >>= λ idx. get_elem? s.blocks idx

  unfoldable pub set_open : BlockStore → Block → BlockStore
  set_open s b = elim s.open_index [
    | none ↦ s
    | some idx ↦ record s { blocks = set_at s.blocks idx b }
  ]

  unfoldable pub has_open_block : BlockStore → Bool
  has_open_block s = is_some s.open_index

  -- The loop body of `resize_grids`.
  unfoldable pub resize_block : ℕ → ℕ → Block → Block
  unfolding resize_grid
  resize_block cols rows b = record b { grid = Option.map (λ g. resize_grid E g cols rows) b.grid }

  unfoldable pub resize_grids : BlockStore → ℕ → ℕ → BlockStore
  unfolding resize_block
  resize_grids s cols rows = record s { blocks = map (resize_block cols rows) s.blocks }

  -- `iter().rev().find(..)`.
  unfoldable pub find_last : (Block → Bool) → List Block → Option Block
  find_last p [] = none
  find_last p (b ∷ bs) = elim (find_last p bs) [
    | some c ↦ some c
    | none ↦ if p b then some b else none
  ]

  unfoldable pub last_finalized : BlockStore → Option Block
  unfolding find_last
  last_finalized s = find_last (λ b. not b.is_running) s.blocks
