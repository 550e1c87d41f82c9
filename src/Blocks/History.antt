-- ===== src/Blocks/History.antt =====
-- Sequences of events, and what the other operations of the store do to a session.
use mathlib.Core.Option
use bed_term.Prelude.{
  ℕ, ◌+◌, ◌%◌, ◌^◌, ◌≤◌, ◌<◌, ◌≡◌, refl, sym, ap, ◌∙◌, Bool, true, false, not, Option, none, some,
  List, [], ◌∷◌, ◌++◌, map, map-append, append-nil, append_assoc, arith, ◌>>=◌, Bytes, length,
  Forall,
}
use bed_term.Prelude.Int.{ℤ}
use bed_term.Alacritty.{Emulator}
use bed_term.BlockGrid.{new_grid, resize_grid, snapshot_raw}
use bed_term.Utf8.{chars}
use bed_term.CliAgent.{detect}
use bed_term.Dcs.Body.{DcsEvent, precmd, preexec, command_finished}
use bed_term.Blocks.{
  elapsed_ms, Block, BlockStore, fresh_block, sealed_rows, sealed, started, apply, resize_block,
  resize_grids, find_last, last_finalized,
}
use bed_term.Blocks.Session.{
  Session, stored, store_of, closed, prompted, session_apply, IsRunning, apply-session_apply,
}
use bed_term.Blocks.Invariant.{
  IsLine, IsSealed, IsOpen, ForCurrent, IsSession, session_apply-IsSession,
}

-- An event with the line, the instant and the size of the screen that it comes at.
pub record Arrival : Type 0 where
  pub event : DcsEvent
  pub line : ℤ
  pub now : ℕ
  pub cols : ℕ
  pub rows : ℕ

module _ (E : Emulator) where
  abbrev pub replay : BlockStore E → List Arrival → Option (BlockStore E)
  replay s [] = some s
  replay s (a ∷ as_) = apply E s a.event a.line a.now a.cols a.rows >>= λ s'. replay s' as_

  abbrev pub session_replay : Session E → List Arrival → Session E
  session_replay v [] = v
  session_replay v (a ∷ as_) =
      session_replay (session_apply E v a.event a.line a.now a.cols a.rows) as_

  IsSession-IsRunning : (o : Option (Block E)) → ForCurrent E (IsOpen E) o → IsRunning E o
  IsSession-IsRunning none h = tt
  IsSession-IsRunning (some b) h = h.0

  closed-extends :
      (past : List (Block E)) (o : Option (Block E)) (line : ℤ) (exit : Option ℤ) (dur : Option ℕ)
      → (more : List (Block E)) × (closed E past o line exit dur ≡ past ++ more)
  closed-extends past none line exit dur = ([], sym (append-nil past))
  closed-extends past (some b) line exit dur = (sealed E b line exit dur ∷ [], refl)

  prompted-next :
      (o : Option (Block E)) (n : ℕ) (line : ℤ) → n + 1 < 2 ^ 64 → (prompted E o n line).1 ≤ n + 1
  prompted-next none n line h = omega arith
  prompted-next (some b) n line h = omega arith

  -- An event seals at most one block, and moves the next id by at most one.
  session_apply-extends :
      (v : Session E) (event : DcsEvent) (line : ℤ) (now cols rows : ℕ)
      → v.next_id + 1 < 2 ^ 64
      → ((more : List (Block E)) × ((session_apply E v event line now cols rows).past
            ≡ v.past ++ more))
        × ((session_apply E v event line now cols rows).next_id ≤ v.next_id + 1)
  session_apply-extends v (precmd pwd branch) line now cols rows h =
      (closed-extends v.past v.current line none none, omega arith)
  session_apply-extends v (preexec command) line now cols rows h =
      (([], sym (append-nil v.past)), prompted-next v.current v.next_id line h)
  session_apply-extends v (command_finished code) line now cols rows h = (
    closed-extends v.past v.current line (some code)
        (Option.map (λ start. elapsed_ms start now) v.command_start),
    omega arith,
  )

  -- From any session that meets the invariant, a stream of events at lines of the grid is applied
  -- with no index out of range, the store keeps a session that meets the invariant again, and the
  -- sealed blocks stay what and where they are; while the ids do not reach 2^64.
  pub replay-IsSession :
      (v : Session E) (arrivals : List Arrival)
      → IsSession E v
      → Forall (λ a. IsLine a.line) arrivals
      → v.next_id + length arrivals < 2 ^ 64
      → (v' : Session E) × (replay (store_of E v) arrivals ≡ some (store_of E v'))
        × IsSession E v'
        × ((more : List (Block E)) × (v'.past ≡ v.past ++ more))
  replay-IsSession v [] s l h = (v, refl, s, ([], sym (append-nil v.past)))
  replay-IsSession v (a ∷ rest) s l h =
      let w = session_apply E v a.event a.line a.now a.cols a.rows in
      let ((more, e), next) =
        session_apply-extends v a.event a.line a.now a.cols a.rows (omega arith) in
      let t = session_apply-IsSession E v a.event a.line a.now a.cols a.rows l.0 (omega arith) s in
      let (v', r, s', (more', e')) = replay-IsSession w rest t l.1 (omega (arith, next)) in
      let applied =
        apply-session_apply E v a.event a.line a.now a.cols a.rows
          (IsSession-IsRunning v.current s.current_open) in
      (v', rw applied r, s', (more ++ more', e' ∙ rw e (append_assoc v.past more more')))

  resize_block-sealed :
      (cols rows : ℕ) (b : Block E) → IsSealed E b → resize_block E cols rows b ≡ b
  unfolding resize_block
  resize_block-sealed cols rows b (_, e, _) =
      ap (λ g. record b { grid = Option.map (λ h. resize_grid E h cols rows) g }) e
      ∙ ap (λ g. record b { grid = g }) (sym e)

  resize_block-past :
      (cols rows : ℕ) (past : List (Block E))
      → Forall (IsSealed E) past
      → map (resize_block E cols rows) past ≡ past
  resize_block-past cols rows [] s = refl
  resize_block-past cols rows (b ∷ bs) s =
      rw (resize_block-sealed cols rows b s.0, resize_block-past cols rows bs s.1) refl

  -- Where all blocks but the one at hand are sealed, a resize reaches the grid of that one and
  -- changes no other block.
  pub resize_grids-stored :
      (v : Session E) (cols rows : ℕ)
      → Forall (IsSealed E) v.past
      → resize_grids E (store_of E v) cols rows
        ≡ store_of E (record v { current = Option.map (resize_block E cols rows) v.current })
  unfolding resize_grids
  resize_grids-stored v cols rows s = resized v.past v.current v.next_id v.command_start s
    where
      resized :
          (past : List (Block E)) (o : Option (Block E)) (n : ℕ) (start : Option ℕ)
          → Forall (IsSealed E) past
          → resize_grids E (stored E past o n start) cols rows
            ≡ stored E past (Option.map (resize_block E cols rows) o) n start
      resized past none n start h =
          ap (λ bs. stored E bs none n start) (resize_block-past cols rows past h)
      resized past (some b) n start h =
          ap (λ bs. record (stored E past (some b) n start) { blocks = bs })
            (map-append (resize_block E cols rows) past (b ∷ [])
              ∙ ap (λ bs. bs ++ resize_block E cols rows b ∷ [])
                  (resize_block-past cols rows past h))

  pub find_last-hit :
      (p : Block E → Bool) (xs : List (Block E)) (b : Block E)
      → p b ≡ true
      → find_last E p (xs ++ b ∷ []) ≡ some b
  unfolding find_last
  find_last-hit p [] b h = rw h refl
  find_last-hit p (x ∷ xs) b h = rw (find_last-hit p xs b h) refl

  pub find_last-miss :
      (p : Block E → Bool) (xs : List (Block E)) (b : Block E)
      → p b ≡ false
      → find_last E p (xs ++ b ∷ []) ≡ find_last E p xs
  unfolding find_last
  find_last-miss p [] b h = rw h refl
  find_last-miss p (x ∷ xs) b h = rw (find_last-miss p xs b h) refl

  -- The most recently finished block is the last one of the past, whether or not a block is at
  -- hand.
  pub last_finalized-stored :
      (past : List (Block E)) (b : Block E) (o : Option (Block E)) (n : ℕ) (start : Option ℕ)
      → b.is_running ≡ false
      → IsRunning E o
      → last_finalized E (stored E (past ++ b ∷ []) o n start) ≡ some b
  unfolding last_finalized
  last_finalized-stored past b none n start h r =
      find_last-hit (λ c. not c.is_running) past b (rw h refl)
  last_finalized-stored past b (some c) n start h r =
      find_last-miss (λ d. not d.is_running) (past ++ b ∷ []) c (rw r refl)
      ∙ find_last-hit (λ d. not d.is_running) past b (rw h refl)

  abbrev pub arrival : DcsEvent → ℤ → ℕ → ℕ → ℕ → Arrival
  arrival event line now cols rows = record {
    event = event;
    line = line;
    now = now;
    cols = cols;
    rows = rows;
  }

  -- A command from its prompt to its end: whatever the session was, if its block at hand is
  -- running it is sealed, and one more sealed block stands behind it, with the directory, branch,
  -- command, agent, exit code and duration that the three events told.
  pub apply-cycle :
      (v : Session E) (pwd branch : Option Bytes) (command : Bytes) (code : ℤ)
      (line line' line'' : ℤ) (now now' now'' cols rows : ℕ)
      → IsRunning E v.current
      → (b : Block E) × (replay (store_of E v) (
            arrival (precmd pwd branch) line now cols rows
            ∷ arrival (preexec command) line' now' cols rows
            ∷ arrival (command_finished code) line'' now'' cols rows
            ∷ [])
          ≡ some (
              stored E
                (closed E v.past v.current line none none ++ b ∷ [])
                none
                ((v.next_id + 1) % 2 ^ 64)
                none))
        × (b.id ≡ v.next_id)
        × (b.command ≡ command)
        × (b.cli_agent ≡ detect (chars command))
        × (b.working_directory ≡ pwd)
        × (b.git_branch ≡ branch)
        × (b.exit_code ≡ some code)
        × (b.duration_ms ≡ some (elapsed_ms now' now''))
        × (b.start_line ≡ line')
        × (b.frozen_snapshot ≡ some (snapshot_raw E (new_grid E cols rows)))
        × (b.is_running ≡ false)
  unfolding sealed sealed_rows started fresh_block
  apply-cycle v pwd branch command code line line' line'' now now' now'' cols rows h =
      let v1 = session_apply E v (precmd pwd branch) line now cols rows in
      let v2 = session_apply E v1 (preexec command) line' now' cols rows in
      let b =
        sealed E (started E (fresh_block E v.next_id line pwd branch) line' command cols rows)
          line'' (some code) (some (elapsed_ms now' now'')) in
      (
        b,
        rw (apply-session_apply E v (precmd pwd branch) line now cols rows h) (
            rw (apply-session_apply E v1 (preexec command) line' now' cols rows refl) (
              rw (apply-session_apply E v2 (command_finished code) line'' now'' cols rows refl)
                refl)),
        refl,
        refl,
        refl,
        refl,
        refl,
        refl,
        refl,
        refl,
        refl,
        refl,
      )
