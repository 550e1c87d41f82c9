-- ===== src/Dcs/Sniffer/Equivalence.antt =====
-- The whole of `feed_with_positions` against `feed`, for one chunk and for many.
use mathlib.Core.List.{map-append}
use bed_term.Prelude.{
  ℕ, zero, suc, ◌+◌, ◌-◌, ◌≤◌, ◌≡◌, sym, ap, subst, ◌∙◌, List, [], ◌∷◌, ◌++◌, append-nil,
  append_assoc, arith, Bytes, length, drop, length-drop, drop-length,
}
use bed_term.Dcs.Sniffer.{
  Vte, LocatedEvent, DcsSniffer, feed, Loop, round, positions_loop, feed_with_positions,
}
use bed_term.Dcs.Sniffer.Chunks.{feed-append, feed_nil, forget, feed-forget}
use bed_term.Dcs.Sniffer.Rounds.{events_of, Fed, round_lem}

abbrev pub concat : List Bytes → Bytes
concat [] = []
concat (c ∷ cs) = c ++ concat cs

append_cancel : {A : Type 0} (xs : List A) {ys zs : List A} → xs ++ ys ≡ xs ++ zs → ys ≡ zs
append_cancel [] h = h
append_cancel (x ∷ xs) h = append_cancel xs (ground (arith, h))

module _ (V : Vte) where
  Fed-nil : (s : DcsSniffer V) → Fed V s [] s []
  Fed-nil s = record {
    same = ap (forget V) (sym (feed_nil V s));
    queued = sym (append-nil s.sink.events);
  }

  Fed-append :
      {s t u : DcsSniffer V} {xs ys : Bytes} {ls ms : List LocatedEvent}
      → Fed V s xs t ls
      → Fed V t ys u ms
      → Fed V s (xs ++ ys) u (ls ++ ms)
  Fed-append {s} {t} {u} {xs} {ys} {ls} {ms} f g = record {
    same =
        g.same
        ∙ feed-forget V t ys
        ∙ ap (λ r. feed V r ys) f.same
        ∙ sym (feed-forget V (feed V s xs) ys)
        ∙ ap (forget V) (sym (feed-append V s xs ys));
    queued =
        g.queued
        ∙ ap (λ q. q ++ events_of ms) f.queued
        ∙ append_assoc s.sink.events (events_of ls) (events_of ms)
        ∙ ap (◌++◌ s.sink.events) (sym (map-append (λ (l : LocatedEvent). l.event) ls ms));
  }

  positions_loop-Fed :
      (fuel : ℕ) (l : Loop V) (rest : Bytes)
      → length rest ≤ fuel
      → Fed V l.sniffer rest
          (positions_loop V fuel l rest).0.sniffer
          (positions_loop V fuel l rest).1
  unfolding positions_loop
  positions_loop-Fed zero l [] h = Fed-nil l.sniffer
  positions_loop-Fed zero l (b ∷ rest) h = absurd (omega arith)
  positions_loop-Fed (suc fuel) l [] h = Fed-nil l.sniffer
  positions_loop-Fed (suc fuel) l (byte ∷ rest) h =
      let r = round V l byte rest in
      let d = round_lem V l byte rest in
      let n = r.0.i - (l.i + 1) in
      let taken : n ≡ length d.more = omega (arith, d.moved) in
      let left : drop n rest ≡ d.behind =
        ap (λ k. drop k rest) taken
        ∙ ap (drop (length d.more)) d.split
        ∙ drop-length d.more d.behind in
      let all : (byte ∷ d.more) ++ drop n rest ≡ byte ∷ rest =
        ap (λ z. (byte ∷ d.more) ++ z) left ∙ ap (◌∷◌ byte) (sym d.split) in
      let later = positions_loop V fuel r.0 (drop n rest) in
      subst (λ z. Fed V l.sniffer z later.0.sniffer (r.1 ++ later.1)) all
        (Fed-append d.fed
          (positions_loop-Fed fuel r.0 (drop n rest) (omega (arith, length-drop n rest))))

  -- `feed_with_positions` leaves the parser, the frame in progress and the event queue as `feed`
  -- leaves them, and the events that it locates are those that `feed` queues, in order.
  pub feed_with_positions-Fed :
      (s : DcsSniffer V) (bytes : Bytes)
      → Fed V s bytes (feed_with_positions V s bytes).0 (feed_with_positions V s bytes).1
  unfolding feed_with_positions
  feed_with_positions-Fed s bytes = positions_loop-Fed (length bytes) _ bytes (omega arith)

  -- Chunks that arrive one after another, and all that is located in them.
  pub feed_chunks : DcsSniffer V → List Bytes → DcsSniffer V × List LocatedEvent
  feed_chunks s [] = (s, [])
  feed_chunks s (c ∷ cs) =
      let (s', located) = feed_with_positions V s c in
      let (s'', later) = feed_chunks s' cs in (s'', located ++ later)

  feed_chunks-Fed :
      (s : DcsSniffer V) (cs : List Bytes)
      → Fed V s (concat cs) (feed_chunks s cs).0 (feed_chunks s cs).1
  unfolding feed_chunks
  feed_chunks-Fed s [] = Fed-nil s
  feed_chunks-Fed s (c ∷ cs) =
      Fed-append (feed_with_positions-Fed s c) (feed_chunks-Fed (feed_with_positions V s c).0 cs)

  -- However the output of the shell is cut into chunks, feeding the chunks one after another to
  -- `feed_with_positions` locates the same events, in the same order, as feeding all of it at
  -- once; for every parser that may be fed in pieces.
  pub feed_chunks-concat :
      (s : DcsSniffer V) (cs : List Bytes)
      → events_of (feed_chunks s cs).1 ≡ events_of (feed_with_positions V s (concat cs)).1
  feed_chunks-concat s cs =
      let f = feed_chunks-Fed s cs in
      let g = feed_with_positions-Fed s (concat cs) in
      let queue = ap (λ (t : DcsSniffer V). t.sink.events) (f.same ∙ sym g.same) in
      append_cancel s.sink.events (sym f.queued ∙ queue ∙ g.queued)
