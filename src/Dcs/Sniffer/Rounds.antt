-- ===== src/Dcs/Sniffer/Rounds.antt =====
-- A round of the loop of `feed_with_positions`, and the loop, against `feed`.
use bed_term.Prelude.{
  ℕ, ◌+◌, ◌≤◌, ◌≡◌, refl, sym, ap, ◌∙◌, inl, inr, Bool, not, ◌&&◌, Option, List, [], ◌∷◌, ◌++◌, map,
  arith, ltb, ◌==◌, Bool-cases, Bytes, length, drop, length-append, drop-length,
}
use bed_term.Dcs.Body.{DcsEvent}
use bed_term.Dcs.Sniffer.{
  Vte, LocatedEvent, locate, DcsSniffer, feed, Loop, claim, read_byte, extra, feed_extra, emit,
  round,
}
use bed_term.Dcs.Sniffer.Chunks.{
  feed-append, feed_nil, forget, feed-forget, fed_events, feed-events,
}

abbrev pub events_of : List LocatedEvent → List DcsEvent
events_of = map λ l. l.event

module _ (V : Vte) where
  -- What has come of a state and a list of located events by feeding `bytes` to sniffer `s`.
  pub record Fed (s : DcsSniffer V) (bytes : Bytes) (t : DcsSniffer V) (ls : List LocatedEvent)
      : Type 0 where
    pub same : forget V t ≡ forget V (feed V s bytes)
    pub queued : t.sink.events ≡ s.sink.events ++ events_of ls

  -- A round takes its byte and a piece of the rest, and feeds both.
  pub record Round (l : Loop V) (byte : ℕ) (rest : Bytes) (r : Loop V × List LocatedEvent)
      : Type 0 where
    pub more : Bytes
    pub behind : Bytes
    pub split : rest ≡ more ++ behind
    pub moved : r.0.i ≡ l.i + 1 + length more
    pub fed : Fed l.sniffer (byte ∷ more) r.0.sniffer r.1

  extra-split : (byte : ℕ) (rest : Bytes) → (behind : Bytes) × (rest ≡ extra V byte rest ++ behind)
  unfolding extra
  extra-split byte [] = ([], refl)
  extra-split byte (c ∷ rest) = elim (Bool-cases (byte == 0x1B && c == b'\\')) [
    | inl e ↦ (rest, rw e refl)
    | inr e ↦ (c ∷ rest, rw e refl)
  ]

  claim-forget :
      (b : Bool) (l : Loop V)
      → (forget V (claim V b l).sniffer ≡ forget V l.sniffer)
        × ((claim V b l).i ≡ l.i)
        × ((claim V b l).sniffer.sink.events ≡ l.sniffer.sink.events)
  unfolding claim
  claim-forget b l = elim (Bool-cases (not b && l.sniffer.sink.is_ours)) [
    | inl e ↦ rw e (refl, refl, refl)
    | inr e ↦ rw e (refl, refl, refl)
  ]

  read_byte_lem :
      (l : Loop V) (byte : ℕ)
      → (forget V (read_byte V l byte).sniffer ≡ forget V (feed V l.sniffer (byte ∷ [])))
        × ((read_byte V l byte).i ≡ l.i)
        × ((read_byte V l byte).sniffer.sink.events ≡ (feed V l.sniffer (byte ∷ [])).sink.events)
  unfolding read_byte
  read_byte_lem l byte = claim-forget l.sniffer.sink.is_ours _

  feed_extra-feed : (s : DcsSniffer V) (more : Bytes) → feed_extra V s more ≡ feed V s more
  unfolding feed_extra
  feed_extra-feed s [] = sym (feed_nil V s)
  feed_extra-feed s (c ∷ cs) = refl

  -- The queue of a round that reads on behind its byte.
  read_on :
      (l : Loop V) (byte : ℕ) (more : Bytes)
      → forget V (feed_extra V (read_byte V l byte).sniffer more)
        ≡ forget V (feed V l.sniffer (byte ∷ more))
  read_on l byte more =
      let s = (read_byte V l byte).sniffer in
      ap (forget V) (feed_extra-feed s more)
      ∙ feed-forget V s more
      ∙ ap (λ t. feed V t more) (read_byte_lem l byte).0
      ∙ sym (feed-forget V (feed V l.sniffer (byte ∷ [])) more)
      ∙ ap (forget V) (sym (feed-append V l.sniffer (byte ∷ []) more))

  events_of-locate :
      (start : Option ℕ) (stop : ℕ) (es : List DcsEvent) → events_of (locate start stop es) ≡ es
  unfolding locate
  events_of-locate start stop [] = refl
  events_of-locate start stop (e ∷ es) = ap (◌∷◌ e) (events_of-locate start stop es)

  emit-Round :
      (l : Loop V) (byte : ℕ) (rest : Bytes)
      → Round l byte rest
          (emit V (length l.sniffer.sink.events) (read_byte V l byte) (extra V byte rest))
  unfolding emit
  emit-Round l byte rest =
      let more = extra V byte rest in
      let (behind, split) = extra-split byte rest in
      let s = feed_extra V (read_byte V l byte).sniffer more in
      let old = l.sniffer.sink.events in
      let grown : s.sink.events ≡ old ++ fed_events V l.sniffer (byte ∷ more) =
        ap (λ t. t.sink.events) (read_on l byte more) ∙ feed-events V l.sniffer (byte ∷ more) in
      let new : drop (length old) s.sink.events ≡ fed_events V l.sniffer (byte ∷ more) =
        ap (drop (length old)) grown ∙ drop-length old _ in
      record {
        more = more;
        behind = behind;
        split = split;
        moved = omega (arith, (read_byte_lem l byte).1);
        fed = record {
          same = read_on l byte more;
          queued = grown ∙ ap (◌++◌ old) (sym (events_of-locate _ _ _ ∙ new));
        };
      }

  nil_of_length : {A : Type 0} (old new : List A) → length (old ++ new) ≤ length old → new ≡ []
  nil_of_length old [] h = refl
  nil_of_length old (x ∷ new) h = absurd (omega (arith, length-append old (x ∷ new)))

  quiet-Round :
      (l : Loop V) (byte : ℕ) (rest : Bytes)
      → length (read_byte V l byte).sniffer.sink.events ≤ length l.sniffer.sink.events
      → Round l byte rest (record (read_byte V l byte) { i = (read_byte V l byte).i + 1 }, [])
  quiet-Round l byte rest h =
      let (same, at, queue) = read_byte_lem l byte in
      let old = l.sniffer.sink.events in
      let grown = queue ∙ feed-events V l.sniffer (byte ∷ []) in
      let none_new : fed_events V l.sniffer (byte ∷ []) ≡ [] =
        nil_of_length old _ (rw (← grown) h) in
      record {
        more = [];
        behind = rest;
        split = refl;
        moved = omega (arith, at);
        fed = record { same = same; queued = grown ∙ ap (◌++◌ old) none_new };
      }

  pub round_lem : (l : Loop V) (byte : ℕ) (rest : Bytes) → Round l byte rest (round V l byte rest)
  unfolding round
  round_lem l byte rest =
      elim (Bool-cases
        (ltb (length l.sniffer.sink.events) (length (read_byte V l byte).sniffer.sink.events))) [
          | inl e ↦ rw e (emit-Round l byte rest)
          | inr e ↦ rw e (quiet-Round l byte rest (ground arith))
        ]
