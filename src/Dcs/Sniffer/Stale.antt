-- ===== src/Dcs/Sniffer/Stale.antt =====
-- A frame whose introducer came in an earlier chunk.
use bed_term.Prelude.{
  ℕ, zero, suc, ◌+◌, ◌-◌, ◌<◌, ◌≡◌, refl, sym, ap, subst, ◌∙◌, ◌≢◌, true, false, Option, none, some,
  List, [], ◌∷◌, ◌++◌, append-nil, append_assoc, arith, ltb, ◌==◌, if◌then◌else◌, lt→ltb, Bytes,
  length, drop, length-append, drop-length,
}
use bed_term.Dcs.Body.{DcsEvent, parse_body}
use bed_term.Dcs.Sniffer.{
  put, unhook, Vte, perform, perform_all, LocatedEvent, locate, DcsSniffer, feed, Loop, claim,
  read_byte, extra, feed_extra, emit, round, positions_loop, feed_with_positions,
}

drop_nil : (n : ℕ) → drop {A = ℕ} n [] ≡ []
drop_nil zero = refl
drop_nil (suc n) = refl

module _ (V : Vte) where
  open V use {Parser, advance}

  -- Each byte is handed on as one `put`, from parser to parser: the body of a frame is read.
  pub data Puts : Parser → Bytes → Parser → Type 0 where
    stay : {p q : Parser} → p ≡ q → Puts p [] q
    next :
        {p q r : Parser} {b : ℕ} {bs : Bytes}
        → advance p (b ∷ []) ≡ (q, put b ∷ [])
        → Puts q bs r
        → Puts p (b ∷ bs) r

  -- A sniffer in the middle of one of our frames.
  pub record InFrame (s : DcsSniffer V) (k : Option ℕ) : Type 0 where
    pub ours : s.sink.is_ours ≡ true
    pub noted : s.sink.frame_start_in_chunk ≡ k

  -- The round of a byte of the body appends it and reports nothing.
  abbrev put_byte : Loop V → ℕ → Parser → Loop V
  put_byte l b q = record {
    sniffer = record {
      parser = q;
      sink = record (l.sniffer.sink) { buf = l.sniffer.sink.buf ++ b ∷ [] };
    };
    i = l.i + 1;
    last_esc = if b == 0x1B then some l.i else l.last_esc;
  }

  round-put :
      (l : Loop V) (b : ℕ) (rest : Bytes) (q : Parser)
      → l.sniffer.sink.is_ours ≡ true
      → advance l.sniffer.parser (b ∷ []) ≡ (q, put b ∷ [])
      → round V l b rest ≡ (put_byte l b q, [])
  unfolding round read_byte claim feed perform_all perform
  round-put l b rest q o a = rw a (rw o (ground arith))

  extra_other : (b : ℕ) (rest : Bytes) → b ≢ 0x1B → extra V b rest ≡ []
  unfolding extra
  extra_other b [] h = refl
  extra_other b (c ∷ rest) h = ground arith

  -- The sniffer behind the terminator.
  abbrev unhooked : DcsSniffer V → Parser → DcsEvent → DcsSniffer V
  unhooked s q e = record {
    parser = q;
    sink = record (s.sink) { is_ours = false; events = s.sink.events ++ e ∷ [] };
  }

  feed-unhook :
      (s : DcsSniffer V) (q : Parser) (e : DcsEvent)
      → s.sink.is_ours ≡ true
      → advance s.parser (0x9C ∷ []) ≡ (q, unhook ∷ [])
      → parse_body s.sink.buf ≡ some e
      → feed V s (0x9C ∷ []) ≡ unhooked s q e
  unfolding feed perform_all perform
  feed-unhook s q e o a h = rw a (rw o (rw h refl))

  read_byte-unhook :
      (l : Loop V) (q : Parser) (e : DcsEvent)
      → feed V l.sniffer (0x9C ∷ []) ≡ unhooked l.sniffer q e
      → read_byte V l 0x9C
        ≡ record { sniffer = unhooked l.sniffer q e; i = l.i; last_esc = l.last_esc }
  unfolding read_byte claim
  read_byte-unhook l q e h = rw h (ground arith)

  round-unhook :
      (l : Loop V) (k : Option ℕ) (rest : Bytes) (q : Parser) (e : DcsEvent)
      → InFrame l.sniffer k
      → advance l.sniffer.parser (0x9C ∷ []) ≡ (q, unhook ∷ [])
      → parse_body l.sniffer.sink.buf ≡ some e
      → (round V l 0x9C rest).1 ≡ record { frame_start = k; frame_end = l.i + 1; event = e } ∷ []
  unfolding round emit feed_extra locate
  round-unhook l k rest q e f a h =
      let old = l.sniffer.sink.events in
      let grown : ltb (length old) (length (old ++ e ∷ [])) ≡ true =
        lt→ltb _ _ (omega (arith, length-append old (e ∷ []))) in
      let stop : l.i + 1 + 0 ≡ l.i + 1 = omega arith in
      rw (read_byte-unhook l q e (feed-unhook l.sniffer q e f.ours a h))
        (rw (extra_other 0x9C rest (omega arith), grown, drop-length old (e ∷ []), f.noted, stop))

  positions_loop_nil : (fuel : ℕ) (l : Loop V) → (positions_loop V fuel l []).1 ≡ []
  unfolding positions_loop
  positions_loop_nil zero l = refl
  positions_loop_nil (suc fuel) l = refl

  positions_loop-stale :
      (body : Bytes) (fuel : ℕ) (l : Loop V) (k : Option ℕ) (p q : Parser) (e : DcsEvent)
      → length body < fuel
      → InFrame l.sniffer k
      → Puts l.sniffer.parser body p
      → advance p (0x9C ∷ []) ≡ (q, unhook ∷ [])
      → parse_body (l.sniffer.sink.buf ++ body) ≡ some e
      → (positions_loop V fuel l (body ++ 0x9C ∷ [])).1
        ≡ record { frame_start = k; frame_end = l.i + length body + 1; event = e } ∷ []
  unfolding positions_loop
  positions_loop-stale body zero l k p q e h f r a d = absurd (omega arith)
  positions_loop-stale [] (suc fuel) l k p q e h f (stay same) a d =
      let at : l.i + 0 + 1 ≡ l.i + 1 = omega arith in
      let r = round V l 0x9C [] in
      let found =
        round-unhook l k [] q e f
          (subst (λ z. advance z (0x9C ∷ []) ≡ (q, unhook ∷ [])) (sym same) a)
          (ap parse_body (sym (append-nil l.sniffer.sink.buf)) ∙ d) in
      rw at (
        ap (λ z. r.1 ++ (positions_loop V fuel r.0 z).1) (drop_nil (r.0.i - (l.i + 1)))
        ∙ ap (λ z. r.1 ++ z) (positions_loop_nil fuel r.0)
        ∙ append-nil r.1
        ∙ found)
  positions_loop-stale (b ∷ bs) (suc fuel) l k p q e h f (next {q = p'} put_b r) a d =
      let l' = put_byte l b p' in
      let rest = bs ++ 0x9C ∷ [] in
      let none_left : l.i + 1 - (l.i + 1) ≡ 0 = omega arith in
      let at : l.i + 1 + length bs + 1 ≡ l.i + suc (length bs) + 1 = omega arith in
      ap
        (λ (z : Loop V × List LocatedEvent).
          z.1 ++ (positions_loop V fuel z.0 (drop (z.0.i - (l.i + 1)) rest)).1)
        (round-put l b rest p' f.ours put_b)
      ∙ ap (λ n. (positions_loop V fuel l' (drop n rest)).1) none_left
      ∙ positions_loop-stale bs fuel l' k p q e (omega arith)
          (record { ours = f.ours; noted = f.noted }) r a
          (ap parse_body (append_assoc l.sniffer.sink.buf (b ∷ []) bs) ∙ d)
      ∙ ap (λ n. record { frame_start = k; frame_end = n; event = e } ∷ []) at

  -- A sniffer in the middle of one of our frames reports, when the rest of the frame comes in a
  -- chunk of its own, the start that it noted in the earlier chunk, whatever that is, and not the
  -- none that the comment on `feed_with_positions` promises for a frame from an earlier call.
  pub feed_with_positions-stale :
      (s : DcsSniffer V) (k : Option ℕ) (body : Bytes) (p q : Parser) (e : DcsEvent)
      → InFrame s k
      → Puts s.parser body p
      → advance p (0x9C ∷ []) ≡ (q, unhook ∷ [])
      → parse_body (s.sink.buf ++ body) ≡ some e
      → (feed_with_positions V s (body ++ 0x9C ∷ [])).1
        ≡ record { frame_start = k; frame_end = length body + 1; event = e } ∷ []
  unfolding feed_with_positions
  feed_with_positions-stale s k body p q e f r a d =
      let at : 0 + length body + 1 ≡ length body + 1 = omega arith in
      positions_loop-stale body (length (body ++ 0x9C ∷ []))
        (record { sniffer = s; i = 0; last_esc = none }) k p q e
        (omega (arith, length-append body (0x9C ∷ []))) f r a d
      ∙ ap (λ n. record { frame_start = k; frame_end = n; event = e } ∷ []) at
