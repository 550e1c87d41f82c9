-- ===== src/Blocks/Session.antt =====
-- What blocks.rs keeps, without its index: the blocks of the finished commands, and the block of
-- the prompt or command at hand, if there is one.
use mathlib.Core.Option
use bed_term.Prelude.{
  ℕ, ◌+◌, ◌%◌, ◌^◌, ◌≡◌, refl, ap, ◌∙◌, true, Option, none, some, List, [], ◌∷◌, ◌++◌, ◌>>=◌, Bytes,
  length, get_elem?,
}
use bed_term.Prelude.Int.{ℤ}
use bed_term.Alacritty.{Emulator}
use bed_term.Dcs.Body.{DcsEvent, precmd, preexec, command_finished}
use bed_term.Blocks.{
  set_at, elapsed_ms, Block, BlockStore, fresh_block, open_new, sealed, seal_with, seal_open,
  ensure_open, started, start_command, apply,
}

pub set_at-length :
    {A : Type 0} (xs : List A) (x y : A) → set_at (xs ++ x ∷ []) (length xs) y ≡ xs ++ y ∷ []
set_at-length [] x y = refl
set_at-length (z ∷ xs) x y = ap (◌∷◌ z) (set_at-length xs x y)

pub get_elem?-length :
    {A : Type 0} (xs : List A) (x : A) → get_elem? (xs ++ x ∷ []) (length xs) ≡ some x
get_elem?-length [] x = refl
get_elem?-length (z ∷ xs) x = get_elem?-length xs x

module _ (E : Emulator) where
  pub record Session : Type 0 where
    pub past : List (Block E)
    pub current : Option (Block E)
    pub next_id : ℕ
    pub command_start : Option ℕ

  -- The store that keeps a session.
  abbrev pub stored : List (Block E) → Option (Block E) → ℕ → Option ℕ → BlockStore E
  stored past none n start = record {
    blocks = past;
    next_id = n;
    open_index = none;
    command_start = start;
  }
  stored past (some b) n start = record {
    blocks = past ++ b ∷ [];
    next_id = n;
    open_index = some (length past);
    command_start = start;
  }

  abbrev pub store_of : Session → BlockStore E
  store_of v = stored v.past v.current v.next_id v.command_start

  -- The block at hand is over.
  abbrev pub closed : List (Block E) → Option (Block E) → ℤ → Option ℤ → Option ℕ → List (Block E)
  closed past none line exit dur = past
  closed past (some b) line exit dur = past ++ sealed E b line exit dur ∷ []

  -- The block that a command runs in, which is the one of its prompt or a new one, and the id of
  -- the next block.
  abbrev pub prompted : Option (Block E) → ℕ → ℤ → Block E × ℕ
  prompted none n line = (fresh_block E n line none none, (n + 1) % 2 ^ 64)
  prompted (some b) n line = (b, n)

  -- What an event does to a session.
  abbrev pub session_apply : Session → DcsEvent → ℤ → ℕ → ℕ → ℕ → Session
  session_apply v (precmd pwd branch) line now cols rows = record {
    past = closed v.past v.current line none none;
    current = some (fresh_block E v.next_id line pwd branch);
    next_id = (v.next_id + 1) % 2 ^ 64;
    command_start = v.command_start;
  }
  session_apply v (preexec command) line now cols rows = record {
    past = v.past;
    current = some (started E (prompted v.current v.next_id line).0 line command cols rows);
    next_id = (prompted v.current v.next_id line).1;
    command_start = some now;
  }
  session_apply v (command_finished code) line now cols rows = record {
    past =
        closed v.past v.current line (some code)
          (Option.map (λ start. elapsed_ms start now) v.command_start);
    current = none;
    next_id = v.next_id;
    command_start = none;
  }

  -- A block at hand is running.
  abbrev pub IsRunning : Option (Block E) → Type 0
  IsRunning none = Unit
  IsRunning (some b) = b.is_running ≡ true

  seal_with-stored :
      (past : List (Block E)) (o : Option (Block E)) (n : ℕ) (start : Option ℕ) (line : ℤ)
      (exit : Option ℤ) (dur : Option ℕ)
      → IsRunning o
      → seal_with E (stored past o n start) line exit dur
        ≡ some (stored (closed past o line exit dur) none n start)
  unfolding seal_with
  seal_with-stored past none n start line exit dur h = refl
  seal_with-stored past (some b) n start line exit dur h =
      rw (get_elem?-length, h, set_at-length) refl

  open_new-stored :
      (past : List (Block E)) (n : ℕ) (start : Option ℕ) (line : ℤ) (pwd branch : Option Bytes)
      → open_new E (stored past none n start) line pwd branch
        ≡ stored past (some (fresh_block E n line pwd branch)) ((n + 1) % 2 ^ 64) start
  unfolding open_new
  open_new-stored past n start line pwd branch = refl

  start_command-stored :
      (past : List (Block E)) (o : Option (Block E)) (n : ℕ) (start : Option ℕ) (line : ℤ)
      (command : Bytes) (cols rows now : ℕ)
      → (start_command E (ensure_open E (stored past o n start) line) line command cols rows
          >>= λ s. some (record s { command_start = some now }))
        ≡ some (
            stored past
              (some (started E (prompted o n line).0 line command cols rows))
              (prompted o n line).1
              (some now))
  unfolding start_command ensure_open open_new
  start_command-stored past none n start line command cols rows now =
      rw (get_elem?-length, set_at-length) refl
  start_command-stored past (some b) n start line command cols rows now =
      rw (get_elem?-length, set_at-length) refl

  without_start :
      (past : List (Block E)) (o : Option (Block E)) (n : ℕ) (start : Option ℕ)
      → record (stored past o n start) { command_start = none } ≡ stored past o n none
  without_start past none n start = refl
  without_start past (some b) n start = refl

  start-stored :
      (past : List (Block E)) (o : Option (Block E)) (n : ℕ) (start : Option ℕ)
      → (stored past o n start).command_start ≡ start
  start-stored past none n start = refl
  start-stored past (some b) n start = refl

  -- `apply` does to the store what the event does to the session that the store keeps (the
  -- finished blocks, and the one at hand if any), and no index of it is out of range, given that
  -- the block at hand is running.
  pub apply-session_apply :
      (v : Session) (event : DcsEvent) (line : ℤ) (now cols rows : ℕ)
      → IsRunning v.current
      → apply E (store_of v) event line now cols rows
        ≡ some (store_of (session_apply v event line now cols rows))
  unfolding apply seal_open
  apply-session_apply v (precmd pwd branch) line now cols rows h = rw seal_with-stored (
      ap some (
        open_new-stored (closed v.past v.current line none none) v.next_id v.command_start line pwd
          branch))
  apply-session_apply v (preexec command) line now cols rows h =
      start_command-stored v.past v.current v.next_id v.command_start line command cols rows now
  apply-session_apply v (command_finished code) line now cols rows h =
      let dur = Option.map (λ start. elapsed_ms start now) in
      ap (λ s. seal_with E s line (some code) (dur (store_of v).command_start))
        (without_start v.past v.current v.next_id v.command_start)
      ∙ seal_with-stored v.past v.current v.next_id none line (some code)
          (dur (store_of v).command_start) h
      ∙ ap
          (λ c.
            some (stored (closed v.past v.current line (some code) (dur c)) none v.next_id none))
          (start-stored v.past v.current v.next_id v.command_start)
