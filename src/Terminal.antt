-- ===== src/Terminal.antt =====
-- `Terminal` of rust-core/bedterm-core/src/term.rs, over the emulator and the DCS parser of
-- alacritty. An operation that slices is `none` where the range is out of the slice's and the source
-- panics. The instant of a call is a parameter of it.
pub mod Screen
pub mod Feed
pub mod Routing
pub mod Pieces
pub mod Stale
pub mod Modes
pub mod View
use bed_term.Prelude.{
  ℕ, zero, ◌-◌, ◌&&◌, ◌||◌, Option, none, some, List, [], ◌∷◌, ltb, leb, if◌then◌else◌, ◌>>=◌,
  Bytes, length, take, drop,
}
use bed_term.Prelude.Int.{ℤ, pos, ◌+ℤ◌, wrap_i32}
use bed_term.Alacritty.{Emulator}
use bed_term.Palette.{Palette, default_palette}
use bed_term.Snapshot.{CellSnapshot, GridSnapshot}
use bed_term.Snapshot.Cells.{grid_cells}
use bed_term.BlockGrid.{BlockGrid, feed_grid}
use bed_term.Blocks.{
  Block, append_output_bytes, BlockStore, new_store, reset, apply, open_block, set_open,
  resize_grids, find_last,
}
use bed_term.Dcs.Sniffer.{Vte, LocatedEvent, DcsSniffer, new_sniffer, feed_with_positions}

-- `&bytes[a..b]`.
unfoldable pub slice : Bytes → ℕ → ℕ → Option Bytes
slice bytes a b =
    if leb a b && leb b (length bytes) then some (take (b - a) (drop a bytes)) else none

module _ (E : Emulator) (V : Vte) where
  pub record Terminal : Type 0 where
    pub parser : E.Processor
    pub term : E.Term
    pub cols : ℕ
    pub rows : ℕ
    pub palette : Palette
    pub dcs : DcsSniffer V
    pub blocks : BlockStore E

  -- `Terminal::new`.
  unfoldable pub new_terminal : ℕ → ℕ → Terminal
  new_terminal cols rows = record {
    parser = E.new_processor;
    term = E.new_term cols rows;
    cols = cols;
    rows = rows;
    palette = default_palette;
    dcs = new_sniffer V;
    blocks = new_store E;
  }

  -- `self.parser.advance(&mut self.term, bytes)`.
  abbrev pub advance_global : Terminal → Bytes → Terminal
  advance_global t bytes =
      let (parser, term) = E.advance t.parser t.term bytes in
      record t { parser = parser; term = term }

  -- `dispatch_chunk`, with the running block and its grid at hand.
  unfoldable pub dispatch_to_block : Terminal → Bytes → Block E → BlockGrid E → Terminal
  unfolding set_open feed_grid
  dispatch_to_block t bytes b g =
      let g' = feed_grid E g bytes in
      let t' = record t { blocks = set_open E t.blocks (record b { grid = some g' }) } in
      if (E.mode g.term).alt_screen || (E.mode g'.term).alt_screen
      then advance_global t' bytes
      else t'

  -- The grid that takes the output, with its block.
  unfoldable pub active : BlockStore E → Option (Block E × BlockGrid E)
  unfolding open_block
  active s = do b ← open_block E s; g ← b.grid; some (b, g)

  -- `dispatch_chunk`, of a chunk that is not empty.
  unfoldable pub dispatch_some : Terminal → Bytes → Option (Block E × BlockGrid E) → Terminal
  unfolding dispatch_to_block
  dispatch_some t bytes none = advance_global t bytes
  dispatch_some t bytes (some (b, g)) = dispatch_to_block t bytes b g

  unfoldable pub dispatch_chunk : Terminal → Bytes → Terminal
  unfolding dispatch_some active
  dispatch_chunk t [] = t
  dispatch_chunk t (b ∷ bs) = dispatch_some t (b ∷ bs) (active t.blocks)

  -- `capture_output_bytes`, of a chunk that is not empty.
  unfoldable pub capture_some : Terminal → Bytes → Option (Block E × BlockGrid E) → Terminal
  unfolding append_output_bytes set_open
  capture_some t bytes none = t
  capture_some t bytes (some (b, g)) = record t {
    blocks = set_open E t.blocks (append_output_bytes E b bytes);
  }

  unfoldable pub capture_output_bytes : Terminal → Bytes → Terminal
  unfolding capture_some active
  capture_output_bytes t [] = t
  capture_output_bytes t (b ∷ bs) = capture_some t (b ∷ bs) (active t.blocks)

  -- `blocks().iter().rev().find(|b| b.is_running)`, and its grid.
  unfoldable pub running_grid : BlockStore E → Option (BlockGrid E)
  unfolding find_last
  running_grid s = find_last E (λ b. b.is_running) s.blocks >>= λ b. b.grid

  -- `history_size() as i32 + cursor.point.line.0`.
  unfoldable pub current_line : Terminal → ℤ
  current_line t = wrap_i32 (wrap_i32 (pos (E.history_size t.term)) +ℤ E.cursor_line t.term)

  unfoldable pub current_grid_absolute_line : Terminal → ℤ
  unfolding running_grid current_line
  current_grid_absolute_line t = elim (running_grid t.blocks) [
    | some g ↦ E.cursor_line g.term
    | none ↦ current_line t
  ]

  -- `if content_end > cursor { .. }`.
  unfoldable pub capture_content : Terminal → Bytes → ℕ → ℕ → Option Terminal
  capture_content t bytes at content_end =
      if ltb at content_end
      then (slice bytes at content_end >>= λ c. some (capture_output_bytes t c))
      else some t

  -- `frame_start.unwrap_or(*end_pos)`.
  abbrev pub content_end_of : Option ℕ → ℕ → ℕ
  content_end_of none frame_end = frame_end
  content_end_of (some start) frame_end = start

  -- The loop of `feed` over the events, from `at` on.
  unfoldable pub feed_events : Terminal → Bytes → ℕ → ℕ → List LocatedEvent → Option (Terminal × ℕ)
  feed_events t bytes now at [] = some (t, at)
  feed_events t bytes now at (l ∷ ls) = do
    chunk ← slice bytes at l.frame_end
    t' ←
        capture_content (dispatch_chunk t chunk) bytes at (content_end_of l.frame_start l.frame_end)
    blocks ← apply E t'.blocks l.event (current_grid_absolute_line t') now t.cols t.rows
    feed_events (record t' { blocks = blocks }) bytes now l.frame_end ls

  -- The end of `feed`: the bytes behind the last event.
  unfoldable pub feed_rest : Bytes → Terminal × ℕ → Option Terminal
  feed_rest bytes (t, at) = do
    chunk ← slice bytes at (length bytes)
    capture_content (dispatch_chunk t chunk) bytes at (length bytes)

  -- `Terminal::feed`.
  unfoldable pub feed_bytes : Terminal → Bytes → ℕ → Option Terminal
  feed_bytes t bytes now =
      let (dcs, events) = feed_with_positions V t.dcs bytes in
      feed_events (record t { dcs = dcs }) bytes now 0 events >>= feed_rest bytes

  -- `Terminal::resize`.
  unfoldable pub resize_terminal : Terminal → ℕ → ℕ → Terminal
  unfolding resize_grids
  resize_terminal t cols rows = record t {
    term = E.resize t.term cols rows;
    blocks = resize_grids E t.blocks cols rows;
    cols = cols;
    rows = rows;
  }

  unfoldable pub scroll_by : Terminal → ℤ → Terminal
  scroll_by t (pos zero) = t
  scroll_by t delta = record t { term = E.scroll_delta t.term delta }

  unfoldable pub scroll_to_bottom : Terminal → Terminal
  scroll_to_bottom t = record t { term = E.scroll_bottom t.term }

  unfoldable pub set_palette : Terminal → Palette → Terminal
  set_palette t p = record t { palette = p }

  unfoldable pub reset_blocks : Terminal → Terminal
  unfolding reset
  reset_blocks t = record t { blocks = reset E t.blocks }
