-- ===== src/Dcs/Scan/Render.antt =====
-- Streams of output in which frames stand, as a shell with the integration writes them, and that
-- the scanner finds the frames of such a stream and nothing else.
use bed_term.Prelude.{
  ℕ, suc, ◌+◌, ◌≡◌, refl, sym, ap, ◌∙◌, ◌≢◌, ◌⊎◌, Option, none, List, [], ◌∷◌, ◌++◌, append_assoc,
  arith, Bytes, length, length-append, drop-length, Forall,
}
use bed_term.Dcs.Body.{DcsEvent, parse_body}
use bed_term.Dcs.Scan.Terminators.{
  Terminator, st_bytes, IsInner, find_st-inner, take_frame-st, skip_foreign-st,
}
use bed_term.Dcs.Scan.Fuel.{scan_from, scan_from-advance, scan_from-stop}
use bed_term.Dcs.Scan.{LocatedDcsEvent, advance, scan_step, push_event, scan_dcs_events}

-- Output that holds no escape, one of our frames with its body, or a foreign DCS, whose first two
-- bytes are given apart.
pub data Segment : Type 0 where
  output : Bytes → Segment
  frame : Bytes → Terminator → Segment
  foreign : ℕ → ℕ → Bytes → Terminator → Segment

abbrev pub IsSegment : Segment → Type 0
IsSegment (output text) = Forall (λ b. b ≢ 0x1B) text
IsSegment (frame body t) = Forall IsInner body
IsSegment (foreign c d text t) =
    IsInner c × IsInner d × ((c ≢ b'$') ⊎ (d ≢ b'd')) × Forall IsInner text

abbrev pub segment_bytes : Segment → Bytes
segment_bytes (output text) = text
segment_bytes (frame body t) = 0x1B ∷ b'P' ∷ b'$' ∷ b'd' ∷ (body ++ st_bytes t)
segment_bytes (foreign c d text t) = 0x1B ∷ b'P' ∷ c ∷ d ∷ (text ++ st_bytes t)

abbrev pub stream_bytes : List Segment → Bytes
stream_bytes [] = []
stream_bytes (s ∷ ss) = segment_bytes s ++ stream_bytes ss

-- The events of a segment that stands at `idx`, before those of the later ones.
abbrev pub segment_events : ℕ → Segment → List LocatedDcsEvent → List LocatedDcsEvent
segment_events idx (frame body t) later =
    push_event idx (length (segment_bytes (frame body t))) (parse_body body) later
segment_events idx _ later = later

-- The frames of the stream that hold an event, at their places.
abbrev pub stream_events : ℕ → List Segment → List LocatedDcsEvent
stream_events idx [] = []
stream_events idx (s ∷ ss) =
    segment_events idx s (stream_events (idx + length (segment_bytes s)) ss)

-- A byte that is no escape is passed over.
scan_from_skip :
    (idx b : ℕ) (rest : Bytes) → b ≢ 0x1B → scan_from idx (b ∷ rest) ≡ scan_from (idx + 1) rest
unfolding scan_step
scan_from_skip idx b [] h =
    scan_from-stop idx (b ∷ []) refl ∙ sym (scan_from-stop (idx + 1) [] refl)
scan_from_skip idx b (x ∷ []) h =
    scan_from-stop idx (b ∷ x ∷ []) refl ∙ sym (scan_from-stop (idx + 1) (x ∷ []) refl)
scan_from_skip idx b (x ∷ y ∷ []) h =
    scan_from-stop idx (b ∷ x ∷ y ∷ []) refl ∙ sym (scan_from-stop (idx + 1) (x ∷ y ∷ []) refl)
scan_from_skip idx b (x ∷ y ∷ z ∷ rest) h =
    scan_from-advance idx (b ∷ x ∷ y ∷ z ∷ rest) {n = 1} {e = none} (ground arith) (omega arith)
    ∙ unfold push_event in refl

scan_from-output :
    (idx : ℕ) (text rest : Bytes)
    → Forall (λ b. b ≢ 0x1B) text
    → scan_from idx (text ++ rest) ≡ scan_from (idx + length text) rest
scan_from-output idx [] rest h = let e : idx ≡ idx + 0 = omega arith in ap (λ i. scan_from i rest) e
scan_from-output idx (b ∷ bs) rest h =
    let e : idx + 1 + length bs ≡ idx + suc (length bs) = omega arith in
    scan_from_skip idx b (bs ++ rest) h.0
    ∙ scan_from-output (idx + 1) bs rest h.1
    ∙ ap (λ i. scan_from i rest) e

-- A segment that the scanner takes in one round.
scan_from-segment :
    (idx : ℕ) (bytes rest : Bytes) (e : Option DcsEvent)
    → scan_step (bytes ++ rest) ≡ advance (length bytes) e
    → scan_from idx (bytes ++ rest)
      ≡ push_event idx (length bytes) e (scan_from (idx + length bytes) rest)
scan_from-segment idx bytes rest e h =
    scan_from-advance idx (bytes ++ rest) h (omega (arith, length-append bytes rest))
    ∙ ap (λ r. push_event idx (length bytes) e (scan_from (idx + length bytes) r))
        (drop-length bytes rest)

scan_step-frame :
    (body : Bytes) (t : Terminator) (rest : Bytes)
    → Forall IsInner body
    → scan_step (segment_bytes (frame body t) ++ rest)
      ≡ advance (length (segment_bytes (frame body t))) (parse_body body)
unfolding scan_step
scan_step-frame body t rest h = ground (
  arith,
  take_frame-st body t rest (find_st-inner body t rest h),
  append_assoc body (st_bytes t) rest,
  length-append body (st_bytes t),
)

scan_step-foreign :
    (c d : ℕ) (text : Bytes) (t : Terminator) (rest : Bytes)
    → IsSegment (foreign c d text t)
    → scan_step (segment_bytes (foreign c d text t) ++ rest)
      ≡ advance (length (segment_bytes (foreign c d text t))) none
unfolding scan_step
scan_step-foreign c d text t rest h = ground (
  arith,
  skip_foreign-st (c ∷ d ∷ text) t rest (find_st-inner (c ∷ d ∷ text) t rest (h.0, (h.1, h.3))),
  append_assoc text (st_bytes t) rest,
  length-append text (st_bytes t),
)

push_event-none : (idx n : ℕ) (later : List LocatedDcsEvent) → push_event idx n none later ≡ later
unfolding push_event
push_event-none idx n later = refl

scan_from-stream :
    (idx : ℕ) (ss : List Segment)
    → Forall IsSegment ss
    → scan_from idx (stream_bytes ss) ≡ stream_events idx ss
scan_from-stream idx [] h = scan_from-stop idx [] (unfold scan_step in refl)
scan_from-stream idx (output text ∷ ss) h =
    scan_from-output idx text (stream_bytes ss) h.0 ∙ scan_from-stream (idx + length text) ss h.1
scan_from-stream idx (frame body t ∷ ss) h =
    let n = length (segment_bytes (frame body t)) in
    scan_from-segment idx (segment_bytes (frame body t)) (stream_bytes ss) (parse_body body)
      (scan_step-frame body t (stream_bytes ss) h.0)
    ∙ ap (push_event idx n (parse_body body)) (scan_from-stream (idx + n) ss h.1)
scan_from-stream idx (foreign c d text t ∷ ss) h =
    let n = length (segment_bytes (foreign c d text t)) in
    scan_from-segment idx (segment_bytes (foreign c d text t)) (stream_bytes ss) none
      (scan_step-foreign c d text t (stream_bytes ss) h.0)
    ∙ push_event-none idx n (scan_from (idx + n) (stream_bytes ss))
    ∙ scan_from-stream (idx + n) ss h.1

-- In a stream of escape-free output, of our frames with either terminator and of foreign DCS
-- sequences, in any order, `scan_dcs_events` finds exactly the frames whose body holds an event,
-- each with the offsets where it starts and ends.
pub scan_dcs_events-stream :
    (ss : List Segment)
    → Forall IsSegment ss
    → scan_dcs_events (stream_bytes ss) ≡ stream_events 0 ss
unfolding scan_dcs_events
scan_dcs_events-stream ss h = scan_from-stream 0 ss h
