-- ===== src/Dcs/Sniffer/Chunks.antt =====
-- `feed_with_positions` queues the events that `feed` queues, however the input is cut in chunks.
use bed_term.Prelude.{
  ◌≡◌, refl, sym, ap, ◌∙◌, none, List, [], ◌∷◌, ◌++◌, append-nil, append_assoc, arith,
  if◌then◌else◌, Bytes,
}
use bed_term.Dcs.Body.{DcsEvent, parse_body}
use bed_term.Dcs.Sniffer.{
  Callback, hook, put, unhook, Vte, Sink, push_back, perform, perform_all, DcsSniffer, feed,
}

abbrev pub forget_start : Sink → Sink
forget_start k = record k { frame_start_in_chunk = none }

perform-forget : (k : Sink) (c : Callback) → forget_start (perform k c) ≡ perform (forget_start k) c
unfolding perform
perform-forget k (hook is a) = refl
perform-forget k (put b) = ground arith
perform-forget k unhook = ground arith

perform_all-forget :
    (k : Sink) (cs : List Callback)
    → forget_start (perform_all k cs) ≡ perform_all (forget_start k) cs
unfolding perform_all
perform_all-forget k [] = refl
perform_all-forget k (c ∷ cs) =
    perform_all-forget (perform k c) cs ∙ ap (λ j. perform_all j cs) (perform-forget k c)

perform_all-append :
    (k : Sink) (cs ds : List Callback)
    → perform_all k (cs ++ ds) ≡ perform_all (perform_all k cs) ds
unfolding perform_all
perform_all-append k [] ds = refl
perform_all-append k (c ∷ cs) ds = perform_all-append (perform k c) cs ds

-- The events that a call, and a sequence of calls, appends to the queue.
call_events : Sink → Callback → List DcsEvent
call_events k unhook = if k.is_ours then push_back (parse_body k.buf) [] else []
call_events k _ = []

new_events : Sink → List Callback → List DcsEvent
new_events k [] = []
new_events k (c ∷ cs) = call_events k c ++ new_events (perform k c) cs

perform-events : (k : Sink) (c : Callback) → (perform k c).events ≡ k.events ++ call_events k c
unfolding perform call_events
perform-events k (hook is a) = sym (append-nil k.events)
perform-events k (put b) = ground (arith, append-nil k.events)
perform-events k unhook = ground (arith, append-nil k.events)

perform_all-events :
    (k : Sink) (cs : List Callback) → (perform_all k cs).events ≡ k.events ++ new_events k cs
unfolding perform_all new_events
perform_all-events k [] = sym (append-nil k.events)
perform_all-events k (c ∷ cs) =
    perform_all-events (perform k c) cs
    ∙ ap (λ q. q ++ new_events (perform k c) cs) (perform-events k c)
    ∙ append_assoc k.events (call_events k c) (new_events (perform k c) cs)

module _ (V : Vte) where
  open V use {advance, advance_nil, advance_append}

  pub feed-append :
      (s : DcsSniffer V) (xs ys : Bytes) → feed V s (xs ++ ys) ≡ feed V (feed V s xs) ys
  unfolding feed
  feed-append s xs ys =
      let p = advance s.parser xs in
      let q = advance p.0 ys in
      λ i. record {
        parser = (advance_append s.parser xs ys i).0;
        sink =
            (ap (λ r. perform_all s.sink r.1) (advance_append s.parser xs ys)
                ∙ perform_all-append s.sink p.1 q.1)
              i;
      }

  pub feed_nil : (s : DcsSniffer V) → feed V s [] ≡ s
  unfolding feed perform_all
  feed_nil s = λ i. record {
    parser = (advance_nil s.parser i).0;
    sink = perform_all s.sink (advance_nil s.parser i).1;
  }

  -- A sniffer but for the start that it has noted.
  abbrev pub forget : DcsSniffer V → DcsSniffer V
  forget s = record s { sink = forget_start (s.sink) }

  pub feed-forget : (s : DcsSniffer V) (xs : Bytes) → forget (feed V s xs) ≡ feed V (forget s) xs
  unfolding feed
  feed-forget s xs = λ i. record {
    parser = (advance s.parser xs).0;
    sink = perform_all-forget s.sink (advance s.parser xs).1 i;
  }

  -- The events that a slice adds to the queue.
  pub fed_events : DcsSniffer V → Bytes → List DcsEvent
  fed_events s xs = new_events s.sink (advance s.parser xs).1

  pub feed-events :
      (s : DcsSniffer V) (xs : Bytes) → (feed V s xs).sink.events ≡ s.sink.events ++ fed_events s xs
  unfolding feed fed_events
  feed-events s xs = perform_all-events s.sink (advance s.parser xs).1
