-- ===== src/BlocksFfi/Strings.antt =====
-- What the host reads out of a block view of rust-core/bedterm-core/src/blocks_ffi.rs.
use bed_term.Prelude.{
  ℕ, suc, ◌≡◌, refl, sym, ◌∙◌, ap, not, Option, none, some, length, ◌++◌, [], ◌∷◌, is_some,
  get_elem?, take, drop, append-nil, append_assoc, arith, Bytes, take-length, ◌==◌, if◌then◌else◌,
}
use bed_term.Prelude.Int.{ℤ, pos}
use bed_term.Alacritty.{Emulator}
use bed_term.Dcs.Sniffer.{Vte}
use bed_term.Blocks.{Block}
use bed_term.BlocksFfi.{
  flag, code_of, duration_of, BtBlockView, packed, pointer, block_view, BtTerm, bt_term_block_at,
}

-- The bytes at a pointer; behind a null pointer there are none.
unfoldable pub read : Bytes → Option ℕ → ℕ → Bytes
read scratch none len = []
read scratch (some offset) len = take len (drop offset scratch)

abbrev pub or_empty : Option Bytes → Bytes
or_empty none = []
or_empty (some s) = s

-- A value that the host has where the flag says so.
abbrev pub told : {A : Type 0} → ℕ → A → Option A
told has x = if has == 0 then none else some x

drop-length : (xs ys : Bytes) → drop (length xs) (xs ++ ys) ≡ ys
drop-length [] ys = refl
drop-length (x ∷ xs) ys = drop-length xs ys

pointer-suc : (offset n : ℕ) → pointer offset (suc n) ≡ some offset
pointer-suc offset n = ground arith

-- A string that was packed is read back, whatever was packed behind it.
read-packed :
    (scratch : Bytes) (o : Option Bytes) (rest : Bytes)
    → let p = packed scratch o in read (p.0 ++ rest) (pointer p.1 p.2) p.2 ≡ or_empty o
unfolding read
read-packed scratch none rest = refl
read-packed scratch (some []) rest = refl
read-packed scratch (some (c ∷ cs)) rest =
    rw (pointer-suc (length scratch) (length cs), append_assoc scratch (c ∷ cs) rest)
      (rw (drop-length scratch ((c ∷ cs) ++ rest)) (take-length (c ∷ cs) rest))

packed-bytes : (scratch : Bytes) (o : Option Bytes) → (packed scratch o).0 ≡ scratch ++ or_empty o
packed-bytes scratch none = sym (append-nil scratch)
packed-bytes scratch (some text) = refl

read-within :
    (all scratch : Bytes) (o : Option Bytes) (rest : Bytes)
    → let p = packed scratch o in all ≡ p.0 ++ rest → read all (pointer p.1 p.2) p.2 ≡ or_empty o
read-within all scratch o rest e = rw e (read-packed scratch o rest)

told-exit : (o : Option ℤ) → told (flag (is_some o)) (code_of o) ≡ o
told-exit none = refl
told-exit (some c) = refl

told-duration : (o : Option ℕ) → told (flag (is_some o)) (duration_of o) ≡ o
told-duration none = refl
told-duration (some d) = refl

-- What the host reads by the view and the scratch buffer is what the block holds.
pub record IsShown {E : Emulator} (b : Block E) (scratch : Bytes) (v : BtBlockView) : Type 0 where
  pub command_read : read scratch v.command v.command_len ≡ b.command
  pub cwd_read : read scratch v.cwd v.cwd_len ≡ or_empty b.working_directory
  pub branch_read : read scratch v.git_branch v.git_branch_len ≡ or_empty b.git_branch
  pub lines : (v.start_line ≡ b.start_line) × (v.end_line ≡ b.end_line)
  pub exit_told : told v.has_exit_code v.exit_code ≡ b.exit_code
  pub duration_told : told v.has_duration v.duration_ms ≡ b.duration_ms
  pub running : (v.is_running == 0) ≡ not b.is_running

module _ (E : Emulator) where
  block_view-IsShown : (b : Block E) → IsShown b (block_view E b).0 (block_view E b).1
  unfolding block_view
  block_view-IsShown b =
      let cwd = or_empty b.working_directory in
      let branch = or_empty b.git_branch in
      let s2 = (packed b.command b.working_directory).0 in
      let all : (block_view E b).0 ≡ s2 ++ branch = packed-bytes s2 b.git_branch in
      let start : (block_view E b).0 ≡ b.command ++ (cwd ++ branch) =
        all
        ∙ ap (λ (s : Bytes). s ++ branch) (packed-bytes b.command b.working_directory)
        ∙ append_assoc b.command cwd branch in
      record {
        command_read = read-within _ [] (some b.command) (cwd ++ branch) start;
        cwd_read = read-within _ b.command b.working_directory branch all;
        branch_read = read-within _ s2 b.git_branch [] (sym (append-nil _));
        lines = (refl, refl);
        exit_told = told-exit b.exit_code;
        duration_told = told-duration b.duration_ms;
        running = ground arith;
      }

module _ (E : Emulator) (V : Vte) where
  -- For an index of a block, the call succeeds and leaves the terminal as it is, and what the
  -- host reads by the view, the strings by their pointers and lengths in the scratch buffer, is
  -- what the block holds: its command, its directory and its branch, with a missing one read as
  -- empty, its lines, its exit code and duration where it has them, and whether it is running.
  pub bt_term_block_at-block :
      (h : BtTerm E V) (idx : ℕ) (out : BtBlockView) (b : Block E)
      → get_elem? h.inner.blocks.blocks idx ≡ some b
      → (scratch : Bytes) × (v : BtBlockView) × (bt_term_block_at E V (some h) idx (some out)
          ≡ (some (record h { block_string_scratch = scratch }), some v, pos 0))
        × IsShown b scratch v
  unfolding bt_term_block_at
  bt_term_block_at-block h idx out b e =
      ((block_view E b).0, (block_view E b).1, rw e refl, block_view-IsShown E b)
