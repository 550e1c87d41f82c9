-- ===== src/Blocks/Invariant.antt =====
-- The invariant of a session, and that every event keeps it.
use mathlib.Core.Option
use bed_term.Prelude.{
  ℕ, ◌+◌, ◌%◌, ◌^◌, ◌≤◌, ◌<◌, ◌≡◌, refl, true, false, Option, none, some, List, [], ◌∷◌, ◌++◌,
  arith, Bytes, Forall, Forall-append,
}
use bed_term.Prelude.Int.{ℤ, pos, ◌≤ℤ◌, ◌<ℤ◌, max_ℤ, i32_min, i32_max, saturating_add}
use bed_term.Alacritty.{Emulator}
use bed_term.Dcs.Body.{DcsEvent, precmd, preexec, command_finished}
use bed_term.Blocks.{
  block_end_line_running, elapsed_ms, Block, fresh_block, sealed_rows, sealed, started,
}
use bed_term.Blocks.Capture.{IsCounted}
use bed_term.Blocks.Session.{Session, closed, prompted, session_apply}

-- A line of a grid: an `i32` below its maximum.
abbrev pub IsLine : ℤ → Type 0
IsLine l = (i32_min ≤ℤ l) × (l <ℤ i32_max)

saturating_add-above : (a r : ℤ) → IsLine a → a <ℤ saturating_add a (max_ℤ r (pos 1))
saturating_add-above a r h = ground arith

module _ (E : Emulator) where
  -- A block whose command is over keeps no grid, and has a body of at least one row.
  abbrev pub IsSealed : Block E → Type 0
  IsSealed b = (b.is_running ≡ false) × (b.grid ≡ none) × (b.start_line <ℤ b.end_line)

  -- A running block has no result yet.
  abbrev pub IsOpen : Block E → Type 0
  IsOpen b =
      (b.is_running ≡ true)
      × (b.end_line ≡ block_end_line_running)
      × (b.frozen_snapshot ≡ none)
      × (b.exit_code ≡ none)
      × (b.duration_ms ≡ none)
      × IsLine b.start_line

  -- The ids grow along the list, from `lo` on and below `hi`.
  abbrev pub IsNumbered : ℕ → List (Block E) → ℕ → Type 0
  IsNumbered lo [] hi = lo ≤ hi
  IsNumbered lo (b ∷ bs) hi = (lo ≤ b.id) × IsNumbered (b.id + 1) bs hi

  abbrev pub all_blocks : List (Block E) → Option (Block E) → List (Block E)
  all_blocks past none = past
  all_blocks past (some b) = past ++ b ∷ []

  abbrev pub ForCurrent : (Block E → Type 0) → Option (Block E) → Type 0
  ForCurrent P none = Unit
  ForCurrent P (some b) = P b

  pub record IsSession (v : Session E) : Type 0 where
    pub numbered : IsNumbered 1 (all_blocks v.past v.current) v.next_id
    pub past_sealed : Forall IsSealed v.past
    pub current_open : ForCurrent IsOpen v.current
    pub past_counted : Forall (IsCounted E) v.past
    pub current_counted : ForCurrent (IsCounted E) v.current

  IsNumbered-append :
      (lo : ℕ) (xs : List (Block E)) (b : Block E) (mid hi : ℕ)
      → IsNumbered lo xs mid
      → mid ≤ b.id
      → b.id < hi
      → IsNumbered lo (xs ++ b ∷ []) hi
  IsNumbered-append lo [] b mid hi n l h = omega arith
  IsNumbered-append lo (x ∷ xs) b mid hi (m, n) l h =
      (m, IsNumbered-append (x.id + 1) xs b mid hi n l h)

  IsNumbered-replace :
      (lo : ℕ) (xs : List (Block E)) (b c : Block E) (hi : ℕ)
      → c.id ≡ b.id
      → IsNumbered lo (xs ++ b ∷ []) hi
      → IsNumbered lo (xs ++ c ∷ []) hi
  IsNumbered-replace lo [] b c hi e n = omega (arith, e, n)
  IsNumbered-replace lo (x ∷ xs) b c hi e (m, n) = (m, IsNumbered-replace (x.id + 1) xs b c hi e n)

  sealed-IsSealed :
      (b : Block E) (line : ℤ) (exit : Option ℤ) (dur : Option ℕ)
      → IsOpen b
      → IsSealed (sealed E b line exit dur)
  unfolding sealed
  sealed-IsSealed b line exit dur (_, _, _, _, _, l) =
      (refl, refl, saturating_add-above b.start_line (sealed_rows E b line b.grid).1 l)

  sealed-id :
      (b : Block E) (line : ℤ) (exit : Option ℤ) (dur : Option ℕ)
      → (sealed E b line exit dur).id ≡ b.id
  unfolding sealed
  sealed-id b line exit dur = refl

  sealed-IsCounted :
      (b : Block E) (line : ℤ) (exit : Option ℤ) (dur : Option ℕ)
      → IsCounted E b
      → IsCounted E (sealed E b line exit dur)
  unfolding sealed
  sealed-IsCounted b line exit dur h = h

  fresh_block-IsOpen :
      (n : ℕ) (line : ℤ) (pwd branch : Option Bytes)
      → IsLine line
      → IsOpen (fresh_block E n line pwd branch)
        × IsCounted E (fresh_block E n line pwd branch)
        × ((fresh_block E n line pwd branch).id ≡ n)
  unfolding fresh_block
  fresh_block-IsOpen n line pwd branch h = ((refl, refl, refl, refl, refl, h), omega arith, refl)

  started-IsOpen :
      (b : Block E) (line : ℤ) (command : Bytes) (cols rows : ℕ)
      → IsLine line
      → IsOpen b
      → IsCounted E b
      → IsOpen (started E b line command cols rows)
        × IsCounted E (started E b line command cols rows)
        × ((started E b line command cols rows).id ≡ b.id)
  unfolding started
  started-IsOpen b line command cols rows h (r, e, f, x, d, _) c = ((r, e, f, x, d, h), c, refl)

  closed-IsSession :
      (past : List (Block E)) (o : Option (Block E)) (n : ℕ) (line : ℤ) (exit : Option ℤ)
      (dur start start' : Option ℕ)
      → IsSession (record { past = past; current = o; next_id = n; command_start = start })
      → IsSession (record {
        past = closed E past o line exit dur;
        current = none;
        next_id = n;
        command_start = start';
      })
  closed-IsSession past none n line exit dur start start' s = record {
    numbered = s.numbered;
    past_sealed = s.past_sealed;
    current_open = tt;
    past_counted = s.past_counted;
    current_counted = tt;
  }
  closed-IsSession past (some b) n line exit dur start start' s =
      let c = sealed E b line exit dur in
      record {
        numbered = IsNumbered-replace 1 past b c n (sealed-id b line exit dur) s.numbered;
        past_sealed =
            Forall-append IsSealed past (c ∷ []) s.past_sealed
              (sealed-IsSealed b line exit dur s.current_open, tt);
        current_open = tt;
        past_counted =
            Forall-append (IsCounted E) past (c ∷ []) s.past_counted
              (sealed-IsCounted b line exit dur s.current_counted, tt);
        current_counted = tt;
      }

  opened-IsSession :
      (past : List (Block E)) (n : ℕ) (line : ℤ) (pwd branch : Option Bytes)
      (start start' : Option ℕ)
      → IsLine line
      → n + 1 < 2 ^ 64
      → IsSession (record { past = past; current = none; next_id = n; command_start = start })
      → IsSession (record {
        past = past;
        current = some (fresh_block E n line pwd branch);
        next_id = (n + 1) % 2 ^ 64;
        command_start = start';
      })
  opened-IsSession past n line pwd branch start start' l small s =
      let b = fresh_block E n line pwd branch in
      let (o, c, e) = fresh_block-IsOpen n line pwd branch l in
      record {
        numbered =
            IsNumbered-append 1 past b n ((n + 1) % 2 ^ 64) s.numbered (omega (arith, e))
              (omega (arith, e));
        past_sealed = s.past_sealed;
        current_open = o;
        past_counted = s.past_counted;
        current_counted = c;
      }

  started-IsSession :
      (past : List (Block E)) (b : Block E) (n : ℕ) (line : ℤ) (command : Bytes) (cols rows : ℕ)
      (start start' : Option ℕ)
      → IsLine line
      → IsSession (record { past = past; current = some b; next_id = n; command_start = start })
      → IsSession (record {
        past = past;
        current = some (started E b line command cols rows);
        next_id = n;
        command_start = start';
      })
  started-IsSession past b n line command cols rows start start' l s =
      let (o, c, e) = started-IsOpen b line command cols rows l s.current_open s.current_counted in
      record {
        numbered = IsNumbered-replace 1 past b (started E b line command cols rows) n e s.numbered;
        past_sealed = s.past_sealed;
        current_open = o;
        past_counted = s.past_counted;
        current_counted = c;
      }

  prompted-IsSession :
      (past : List (Block E)) (o : Option (Block E)) (n : ℕ) (line : ℤ) (start : Option ℕ)
      → IsLine line
      → n + 1 < 2 ^ 64
      → IsSession (record { past = past; current = o; next_id = n; command_start = start })
      → IsSession (record {
        past = past;
        current = some (prompted E o n line).0;
        next_id = (prompted E o n line).1;
        command_start = start;
      })
  prompted-IsSession past none n line start l small s =
      opened-IsSession past n line none none start start l small s
  prompted-IsSession past (some b) n line start l small s = s

  -- Every event at a line of the grid keeps the invariant of a session, while its next id is
  -- below 2^64 - 1: the ids grow, all blocks but the one at hand are sealed with a body of at
  -- least a row and without a grid, the one at hand is running and has no result, and the
  -- captures are within their limit.
  pub session_apply-IsSession :
      (v : Session E) (event : DcsEvent) (line : ℤ) (now cols rows : ℕ)
      → IsLine line
      → v.next_id + 1 < 2 ^ 64
      → IsSession v
      → IsSession (session_apply E v event line now cols rows)
  session_apply-IsSession v (precmd pwd branch) line now cols rows l small s =
      opened-IsSession (closed E v.past v.current line none none) v.next_id line pwd branch
        v.command_start v.command_start l small
        (closed-IsSession v.past v.current v.next_id line none none v.command_start v.command_start
          s)
  session_apply-IsSession v (preexec command) line now cols rows l small s =
      started-IsSession v.past (prompted E v.current v.next_id line).0
        (prompted E v.current v.next_id line).1 line command cols rows v.command_start (some now) l
        (prompted-IsSession v.past v.current v.next_id line v.command_start l small s)
  session_apply-IsSession v (command_finished code) line now cols rows l small s =
      closed-IsSession v.past v.current v.next_id line (some code)
        (Option.map (λ start. elapsed_ms start now) v.command_start) v.command_start none s
