-- ===== src/Terminal/Pieces.antt =====
-- Output of a command that comes in pieces.
use bed_term.Prelude.{ℕ, ◌≡◌, refl, sym, ap, Option, some, List, [], ◌∷◌, ◌++◌, Bytes}
use bed_term.Alacritty.{Emulator}
use bed_term.BlockGrid.{BlockGrid, feed_grid}
use bed_term.Blocks.{Block, append_output_bytes}
use bed_term.Blocks.Capture.{append_capped-append}
use bed_term.Blocks.Session.{stored}
use bed_term.Dcs.Sniffer.{Vte, DcsSniffer, feed_with_positions}
use bed_term.Terminal.{Terminal, feed_bytes}
use bed_term.Terminal.Routing.{if_alt, alt_around, feed_bytes-command}

module _ (E : Emulator) where
  -- The emulator keeps its parser's state between calls, so that bytes may come in pieces.
  abbrev pub AdvancesInPieces : Type 0
  AdvancesInPieces =
      (p : E.Processor) (t : E.Term) (xs ys : Bytes)
      → E.advance p t (xs ++ ys) ≡ E.advance (E.advance p t xs).0 (E.advance p t xs).1 ys

  feed_grid-append :
      (g : BlockGrid E) (x y : ℕ) (xs ys : Bytes)
      → AdvancesInPieces
      → feed_grid E g (x ∷ (xs ++ y ∷ ys)) ≡ feed_grid E (feed_grid E g (x ∷ xs)) (y ∷ ys)
  unfolding feed_grid
  feed_grid-append g x y xs ys law =
      ap (λ r. record g { parser = r.0; term = r.1 }) (law g.parser g.term (x ∷ xs) (y ∷ ys))

  -- The block that has taken a chunk of output.
  abbrev pub taken : Block E → BlockGrid E → Bytes → Block E
  taken b g bytes = append_output_bytes E (record b { grid = some (feed_grid E g bytes) }) bytes

  taken-grid :
      (b : Block E) (g : BlockGrid E) (bytes : Bytes)
      → (taken b g bytes).grid ≡ some (feed_grid E g bytes)
  unfolding append_output_bytes
  taken-grid b g bytes = refl

  taken-append :
      (b : Block E) (g : BlockGrid E) (x y : ℕ) (xs ys : Bytes)
      → AdvancesInPieces
      → taken b g (x ∷ (xs ++ y ∷ ys))
        ≡ taken (taken b g (x ∷ xs)) (feed_grid E g (x ∷ xs)) (y ∷ ys)
  unfolding append_output_bytes
  taken-append b g x y xs ys law =
      let grid = feed_grid-append g x y xs ys law in
      let kept = append_capped-append b.stylized_output b.stylized_output_lines (x ∷ xs) (y ∷ ys) in
      λ i. record b {
        grid = some (grid i);
        stylized_output = (kept i).0;
        stylized_output_lines = (kept i).1;
      }

module _ (E : Emulator) (V : Vte) where
  -- The sniffer behind a chunk, and that no event is in it.
  abbrev pub sniffed : DcsSniffer V → Bytes → DcsSniffer V
  sniffed s bytes = (feed_with_positions V s bytes).0

  abbrev pub IsQuiet : DcsSniffer V → Bytes → Type 0
  IsQuiet s bytes = (feed_with_positions V s bytes).1 ≡ []

  -- The terminal behind a chunk of output of its running command.
  abbrev after :
      Terminal E V → List (Block E) → Block E → BlockGrid E → ℕ → Option ℕ → Bytes → Terminal E V
  after t past b g n start bytes = record (if_alt E V (alt_around E V g bytes) t bytes) {
    dcs = sniffed t.dcs bytes;
    blocks = stored E past (some (taken E b g bytes)) n start;
  }

  -- While a command runs, output without an event that comes in two chunks leaves the same blocks
  -- as if it came in one: the grid of the running block, its capture and all others; for every
  -- emulator that may be fed in pieces.
  pub feed_bytes-pieces :
      (t : Terminal E V) (past : List (Block E)) (b : Block E) (g : BlockGrid E) (n : ℕ)
      (start : Option ℕ) (x y : ℕ) (xs ys : Bytes) (now : ℕ)
      → AdvancesInPieces E
      → t.blocks ≡ stored E past (some b) n start
      → b.grid ≡ some g
      → IsQuiet t.dcs (x ∷ xs)
      → IsQuiet (sniffed t.dcs (x ∷ xs)) (y ∷ ys)
      → IsQuiet t.dcs (x ∷ (xs ++ y ∷ ys))
      → (one two whole : Terminal E V) × (feed_bytes E V t (x ∷ xs) now ≡ some one)
        × (feed_bytes E V one (y ∷ ys) now ≡ some two)
        × (feed_bytes E V t (x ∷ (xs ++ y ∷ ys)) now ≡ some whole)
        × (two.blocks ≡ whole.blocks)
  feed_bytes-pieces t past b g n start x y xs ys now law e h p q r =
      let one = after t past b g n start (x ∷ xs) in
      let b' = taken E b g (x ∷ xs) in
      let g' = feed_grid E g (x ∷ xs) in
      (
        one,
        after one past b' g' n start (y ∷ ys),
        after t past b g n start (x ∷ (xs ++ y ∷ ys)),
        feed_bytes-command E V t past b g n start x xs now e h p,
        feed_bytes-command E V one past b' g' n start y ys now refl (taken-grid E b g (x ∷ xs)) q,
        feed_bytes-command E V t past b g n start x (xs ++ y ∷ ys) now e h r,
        ap (λ c. stored E past (some c) n start) (sym (taken-append E b g x y xs ys law)),
      )
