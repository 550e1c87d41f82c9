-- ===== src/Dcs/Sniffer.antt =====
-- `DcsSniffer` and its `Sink` in dcs.rs. The VTE parser is alacritty's, and a parameter here.
pub mod Chunks
pub mod Rounds
pub mod Equivalence
pub mod Offsets
pub mod Stale
pub mod Toy
mod Tests
use bed_term.Prelude.{
  ℕ, zero, suc, ◌+◌, ◌-◌, min, ◌≡◌, Bool, false, not, ◌&&◌, Option, none, some, List, [], ◌∷◌, ◌++◌,
  map, ltb, ◌==◌, if◌then◌else◌, Bytes, length, drop,
}
use bed_term.Dcs.Body.{DcsEvent, parse_body}

-- The calls of `Perform` that `Sink` implements; the others do nothing.
pub data Callback : Type 0 where
  hook : Bytes → ℕ → Callback
  put : ℕ → Callback
  unhook : Callback

-- The parser of `alacritty_terminal::vte`: it keeps its state between calls, so that a slice may
-- be handed over in pieces, which is what the source relies on.
pub record Vte : Type 1 where
  pub Parser : Type 0
  pub new : Parser
  pub advance : Parser → Bytes → Parser × List Callback
  pub advance_nil : (p : Parser) → advance p [] ≡ (p, [])
  pub advance_append :
      (p : Parser) (xs ys : Bytes)
      → advance p (xs ++ ys)
        ≡ ((advance (advance p xs).0 ys).0, (advance p xs).1 ++ (advance (advance p xs).0 ys).1)

pub record Sink : Type 0 where
  pub is_ours : Bool
  pub buf : Bytes
  pub events : List DcsEvent
  pub frame_start_in_chunk : Option ℕ

-- `intermediates == [b'$']`.
is_dollar : Bytes → Bool
is_dollar (b ∷ []) = b == b'$'
is_dollar _ = false

-- `if let Some(event) = .. { self.events.push_back(event) }`.
push_back : Option DcsEvent → List DcsEvent → List DcsEvent
push_back none events = events
push_back (some e) events = events ++ e ∷ []

unfoldable pub perform : Sink → Callback → Sink
unfolding is_dollar push_back
perform k (hook intermediates action) = record k {
  is_ours = action == b'd' && is_dollar intermediates;
  buf = [];
}
perform k (put byte) = if k.is_ours then record k { buf = k.buf ++ byte ∷ [] } else k
perform k unhook =
    if k.is_ours
    then record k { is_ours = false; events = push_back (parse_body k.buf) k.events }
    else k

unfoldable pub perform_all : Sink → List Callback → Sink
perform_all k [] = k
perform_all k (c ∷ cs) = perform_all (perform k c) cs

abbrev pub empty_sink : Sink
empty_sink = record { is_ours = false; buf = []; events = []; frame_start_in_chunk = none }

pub record LocatedEvent : Type 0 where
  pub frame_start : Option ℕ
  pub frame_end : ℕ
  pub event : DcsEvent

-- `located.push((frame_start, end, ..))` for each of the new events.
locate : Option ℕ → ℕ → List DcsEvent → List LocatedEvent
locate start stop = map λ e. record { frame_start = start; frame_end = stop; event = e }

module _ (V : Vte) where
  open V use {Parser, advance}

  pub record DcsSniffer : Type 0 where
    pub parser : Parser
    pub sink : Sink

  unfoldable pub new_sniffer : DcsSniffer
  new_sniffer = record { parser = V.new; sink = empty_sink }

  unfoldable pub feed : DcsSniffer → Bytes → DcsSniffer
  unfolding perform_all perform
  feed s bytes =
      let (parser, calls) = advance s.parser bytes in
      record { parser = parser; sink = perform_all s.sink calls }

  unfoldable pub pop : DcsSniffer → Option DcsEvent × DcsSniffer
  pop s = elim s.sink.events [
    | [] ↦ (none, s)
    | e ∷ rest ↦ (some e, record s { sink = record (s.sink) { events = rest } })
  ]

  unfoldable pub pending : DcsSniffer → ℕ
  pending s = length s.sink.events

  unfoldable pub clear : DcsSniffer → DcsSniffer
  clear s = record s { sink = record (s.sink) { events = [] } }

  unfoldable pub events_from : DcsSniffer → ℕ → List DcsEvent
  events_from s start = drop (min start (length s.sink.events)) s.sink.events

  -- The variables of the loop of `feed_with_positions`, but for `located`.
  pub record Loop : Type 0 where
    pub sniffer : DcsSniffer
    pub i : ℕ
    pub last_esc : Option ℕ

  -- Where `hook` has claimed a frame, its start is noted and the candidate is used up.
  claim : Bool → Loop → Loop
  claim was_ours l =
      if not was_ours && l.sniffer.sink.is_ours
      then record {
        sniffer = record (l.sniffer) {
          sink = record (l.sniffer.sink) { frame_start_in_chunk = l.last_esc };
        };
        i = l.i;
        last_esc = none;
      }
      else l

  -- The first part of a round, up to the test on the event queue.
  read_byte : Loop → ℕ → Loop
  unfolding claim
  read_byte l byte = claim l.sniffer.sink.is_ours (record {
    sniffer = feed l.sniffer (byte ∷ []);
    i = l.i;
    last_esc = if byte == 0x1B then some l.i else l.last_esc;
  })

  -- The bytes behind `byte` that the round takes too: the `\` of a 7-bit terminator.
  extra : ℕ → Bytes → Bytes
  extra byte [] = []
  extra byte (c ∷ rest) = if byte == 0x1B && c == b'\\' then c ∷ [] else []

  -- `self.parser.advance(&mut self.sink, b"\\")`, where there is such a byte.
  feed_extra : DcsSniffer → Bytes → DcsSniffer
  unfolding feed
  feed_extra s [] = s
  feed_extra s (c ∷ cs) = feed s (c ∷ cs)

  -- The part of a round where the queue has grown beyond `before`.
  emit : ℕ → Loop → Bytes → Loop × List LocatedEvent
  unfolding locate
  emit before l more =
      let s = feed_extra l.sniffer more in
      let stop = l.i + 1 + length more in
      (
        record {
          sniffer = record s { sink = record (s.sink) { frame_start_in_chunk = none } };
          i = stop;
          last_esc = l.last_esc;
        },
        locate (s.sink.frame_start_in_chunk) stop (drop before s.sink.events),
      )

  -- A round of the loop at `byte`, behind which `rest` stands: the variables and what is located.
  pub round : Loop → ℕ → Bytes → Loop × List LocatedEvent
  round l byte rest =
      let before = length l.sniffer.sink.events in
      let l' = read_byte l byte in
      if ltb before (length l'.sniffer.sink.events)
      then emit before l' (extra byte rest)
      else (record l' { i = l'.i + 1 }, [])

  -- The loop over `bytes[i..]`. A round takes at least one byte.
  pub positions_loop : ℕ → Loop → Bytes → Loop × List LocatedEvent
  positions_loop zero l rest = (l, [])
  positions_loop (suc fuel) l [] = (l, [])
  positions_loop (suc fuel) l (byte ∷ rest) =
      let (l', located) = round l byte rest in
      let (l'', later) = positions_loop fuel l' (drop (l'.i - (l.i + 1)) rest) in
      (l'', located ++ later)

  unfoldable pub feed_with_positions : DcsSniffer → Bytes → DcsSniffer × List LocatedEvent
  feed_with_positions s bytes =
      let (l, located) =
        positions_loop (length bytes) (record { sniffer = s; i = 0; last_esc = none }) bytes in
      (l.sniffer, located)
