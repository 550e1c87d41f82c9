-- ===== src/Terminal/Routing.antt =====
-- Where the bytes of a chunk go that completes no event.
use bed_term.Prelude.{
  ℕ, ◌-◌, ◌≡◌, refl, ap, ◌∙◌, inl, inr, Bool, true, false, ◌||◌, Option, none, some, List, [], ◌∷◌,
  arith, ltb, if◌then◌else◌, Bool-cases, Bytes, length, take,
}
use bed_term.Alacritty.{Emulator}
use bed_term.BlockGrid.{BlockGrid, feed_grid}
use bed_term.Blocks.{Block, append_output_bytes, BlockStore, open_block, set_open}
use bed_term.Blocks.Session.{set_at-length, get_elem?-length, stored}
use bed_term.Dcs.Sniffer.{Vte, DcsSniffer, feed_with_positions}
use bed_term.Terminal.{
  slice, Terminal, advance_global, dispatch_to_block, active, dispatch_some, dispatch_chunk,
  capture_some, capture_output_bytes, capture_content, feed_events, feed_rest, feed_bytes,
}

take-all : (xs : Bytes) → take (length xs) xs ≡ xs
take-all [] = refl
take-all (x ∷ xs) = ap (◌∷◌ x) (take-all xs)

slice-all : (bytes : Bytes) → slice bytes 0 (length bytes) ≡ some bytes
unfolding slice
slice-all bytes =
    let e : length bytes - 0 ≡ length bytes = omega arith in
    let whole : take (length bytes - 0) bytes ≡ bytes = rw e (take-all bytes) in
    ground (arith, whole)

module _ (E : Emulator) (V : Vte) where
  active-stored :
      (past : List (Block E)) (b : Block E) (g : BlockGrid E) (n : ℕ) (start : Option ℕ)
      → b.grid ≡ some g
      → active E V (stored E past (some b) n start) ≡ some (b, g)
  unfolding active open_block
  active-stored past b g n start h = rw (get_elem?-length, h) refl

  -- The terminal after output that reaches it as a whole.
  abbrev pub if_alt : Bool → Terminal E V → Bytes → Terminal E V
  if_alt alt t bytes = if alt then advance_global E V t bytes else t

  abbrev pub alt_around : BlockGrid E → Bytes → Bool
  alt_around g bytes = (E.mode g.term).alt_screen || (E.mode (feed_grid E g bytes).term).alt_screen

  set_open-stored :
      (past : List (Block E)) (b c : Block E) (n : ℕ) (start : Option ℕ)
      → set_open E (stored E past (some b) n start) c ≡ stored E past (some c) n start
  unfolding set_open
  set_open-stored past b c n start = rw set_at-length refl

  dispatch_chunk-stored :
      (t : Terminal E V) (past : List (Block E)) (b : Block E) (g : BlockGrid E) (n : ℕ)
      (start : Option ℕ) (c : ℕ) (cs : Bytes)
      → t.blocks ≡ stored E past (some b) n start
      → b.grid ≡ some g
      → dispatch_chunk E V t (c ∷ cs) ≡ record (if_alt (alt_around g (c ∷ cs)) t (c ∷ cs)) {
        blocks = stored E past (some (record b { grid = some (feed_grid E g (c ∷ cs)) })) n start;
      }
  unfolding dispatch_chunk dispatch_some dispatch_to_block
  dispatch_chunk-stored t past b g n start c cs e h =
      let b' = record b { grid = some (feed_grid E g (c ∷ cs)) } in
      let found = ap (active E V) e ∙ active-stored past b g n start h in
      let put_back = ap (λ s. set_open E s b') e ∙ set_open-stored past b b' n start in
      elim (Bool-cases (alt_around g (c ∷ cs))) [
        | inl a ↦ rw (found, a, put_back) refl
        | inr a ↦ rw (found, a, put_back) refl
      ]

  capture_output_bytes-stored :
      (t : Terminal E V) (past : List (Block E)) (b : Block E) (g : BlockGrid E) (n : ℕ)
      (start : Option ℕ) (c : ℕ) (cs : Bytes)
      → t.blocks ≡ stored E past (some b) n start
      → b.grid ≡ some g
      → capture_output_bytes E V t (c ∷ cs)
        ≡ record t { blocks = stored E past (some (append_output_bytes E b (c ∷ cs))) n start }
  unfolding capture_output_bytes capture_some
  capture_output_bytes-stored t past b g n start c cs e h =
      let b' = append_output_bytes E b (c ∷ cs) in
      let found = ap (active E V) e ∙ active-stored past b g n start h in
      let put_back = ap (λ s. set_open E s b') e ∙ set_open-stored past b b' n start in
      rw (found, put_back) refl

  if_alt-record :
      (alt : Bool) (t : Terminal E V) (d : DcsSniffer V) (s : BlockStore E) (bytes : Bytes)
      → record (if_alt alt (record t { dcs = d }) bytes) { blocks = s }
        ≡ record (if_alt alt t bytes) { dcs = d; blocks = s }
  if_alt-record true t d s bytes = refl
  if_alt-record false t d s bytes = refl

  feed_bytes-quiet :
      (t : Terminal E V) (c : ℕ) (cs : Bytes) (now : ℕ)
      → (feed_with_positions V t.dcs (c ∷ cs)).1 ≡ []
      → feed_bytes E V t (c ∷ cs) now
        ≡ some (
            capture_output_bytes E V
              (dispatch_chunk E V
                (record t { dcs = (feed_with_positions V t.dcs (c ∷ cs)).0 })
                (c ∷ cs))
              (c ∷ cs))
  unfolding feed_bytes feed_events feed_rest capture_content
  feed_bytes-quiet t c cs now h =
      let ahead : ltb 0 (length (c ∷ cs)) ≡ true = ground arith in
      rw (h, slice-all (c ∷ cs), ahead) refl

  -- While a command runs, a chunk that is not empty and completes no event goes to the grid of
  -- its block and to the capture of the block; the global terminal sees it exactly where the grid
  -- is on the alternate screen before the chunk or behind it.
  pub feed_bytes-command :
      (t : Terminal E V) (past : List (Block E)) (b : Block E) (g : BlockGrid E) (n : ℕ)
      (start : Option ℕ) (c : ℕ) (cs : Bytes) (now : ℕ)
      → t.blocks ≡ stored E past (some b) n start
      → b.grid ≡ some g
      → (feed_with_positions V t.dcs (c ∷ cs)).1 ≡ []
      → feed_bytes E V t (c ∷ cs) now
        ≡ some (record (if_alt (alt_around g (c ∷ cs)) t (c ∷ cs)) {
          dcs = (feed_with_positions V t.dcs (c ∷ cs)).0;
          blocks =
              stored E past
                (some (
                  append_output_bytes E
                    (record b { grid = some (feed_grid E g (c ∷ cs)) })
                    (c ∷ cs)))
                n
                start;
        })
  feed_bytes-command t past b g n start c cs now e h q =
      let bytes = c ∷ cs in
      let d = (feed_with_positions V t.dcs bytes).0 in
      let b' = record b { grid = some (feed_grid E g bytes) } in
      let alt = alt_around g bytes in
      let u = record (if_alt alt (record t { dcs = d }) bytes) {
        blocks = stored E past (some b') n start;
      } in
      feed_bytes-quiet t c cs now q
      ∙ ap (λ x. some (capture_output_bytes E V x bytes))
          (dispatch_chunk-stored (record t { dcs = d }) past b g n start c cs e h)
      ∙ ap some (
          capture_output_bytes-stored u past b' (feed_grid E g bytes) n start c cs refl refl
          ∙ if_alt-record alt t d (stored E past (some (append_output_bytes E b' bytes)) n start)
              bytes)

  -- While no command runs, a chunk that is not empty and completes no event goes to the global
  -- terminal alone and is not captured.
  pub feed_bytes-prompt :
      (t : Terminal E V) (c : ℕ) (cs : Bytes) (now : ℕ)
      → active E V t.blocks ≡ none
      → (feed_with_positions V t.dcs (c ∷ cs)).1 ≡ []
      → feed_bytes E V t (c ∷ cs) now
        ≡ some (record (advance_global E V t (c ∷ cs)) {
          dcs = (feed_with_positions V t.dcs (c ∷ cs)).0;
        })
  unfolding dispatch_chunk capture_output_bytes dispatch_some capture_some
  feed_bytes-prompt t c cs now h q = feed_bytes-quiet t c cs now q ∙ rw h (rw h refl)
