-- ===== src/Dcs/Scan/Sound.antt =====
-- What the scanner reports of any slice: every located event is a frame that stands there.
use bed_term.Prelude.{
  ℕ, zero, suc, ◌+◌, ◌≤◌, ◌≡◌, refl, sym, ap, subst, ◌∙◌, ◌⊎◌, inl, inr, ◌&&◌, Option, none, some,
  List, [], ◌∷◌, ◌++◌, append_assoc, arith, ◌==◌, Bool-cases, Option-cases, Bytes, length, drop,
  length-append, drop-length,
}
use bed_term.Dcs.Body.{DcsEvent, parse_body}
use bed_term.Dcs.Scan.Fuel.{Move-cases}
use bed_term.Dcs.Scan.Render.{frame, segment_bytes}
use bed_term.Dcs.Scan.Terminators.{
  Terminator, st_bytes, take_frame-st, skip_foreign-st, find_st-splits,
}
use bed_term.Dcs.Scan.{
  LocatedDcsEvent, find_st, advance, skip_foreign, take_frame, scan_step, push_event, scan_loop,
  scan_dcs_events,
}

-- The events located in `rest`, which stands at `idx`, in order: bytes are passed over, or one of
-- our frames stands there and its body holds the event that is reported with its offsets.
pub data Frames : ℕ → Bytes → List LocatedDcsEvent → Type 0 where
  done : {idx : ℕ} {rest : Bytes} → Frames idx rest []
  pass :
      {idx : ℕ} {rest : Bytes} {locs : List LocatedDcsEvent} (n : ℕ)
      → n ≤ length rest
      → Frames (idx + n) (drop n rest) locs
      → Frames idx rest locs
  found :
      {idx : ℕ} {rest : Bytes} {locs : List LocatedDcsEvent} (body : Bytes) (t : Terminator)
      (after : Bytes) (l : LocatedDcsEvent)
      → rest ≡ segment_bytes (frame body t) ++ after
      → l.start ≡ idx
      → l.end_exclusive ≡ idx + length (segment_bytes (frame body t))
      → parse_body body ≡ some l.event
      → Frames l.end_exclusive after locs
      → Frames idx rest (l ∷ locs)

-- What a round that goes on has read.
abbrev Reads : Bytes → ℕ → Option DcsEvent → Type 0
Reads rest n e =
    (n ≤ length rest)
    × ((e ≡ none)
        ⊎ ((body : Bytes) × (t : Terminator) × (after : Bytes) × (rest
              ≡ segment_bytes (frame body t) ++ after)
            × (n ≡ length (segment_bytes (frame body t)))
            × (parse_body body ≡ e)))

-- The text behind an introducer, split at its terminator.
abbrev Split : Bytes → Type 0
Split rest =
    (body : Bytes) × (t : Terminator) × (after : Bytes) × (rest ≡ body ++ (st_bytes t ++ after))
    × (find_st (body ++ (st_bytes t ++ after)) ≡ some (length body))
    × (length rest ≡ length body + length (st_bytes t) + length after)

find_st-Split : (rest : Bytes) (rel : ℕ) → find_st rest ≡ some rel → Split rest
find_st-Split rest rel h =
    let (body, t, after, split, len) = find_st-splits rest rel h in
    let size = length-append body (st_bytes t ++ after) in
    let size' = length-append (st_bytes t) after in
    (body, t, after, split, cc, rw split (omega (arith, size, size')))

skip_foreign-Reads :
    (rest : Bytes) (n : ℕ) (e : Option DcsEvent)
    → skip_foreign rest ≡ advance n e
    → (n ≤ 2 + length rest) × (e ≡ none)
skip_foreign-Reads rest n e h = elim (Option-cases (find_st rest)) [
  | inl missing ↦ absurd (stops missing)
  | inr (rel, e') ↦
      let (body, t, after, split, there, size) = find_st-Split rest rel e' in
      ground (arith, skip_foreign-st body t after there)
]
  where
    stops : find_st rest ≡ none → ⊥
    stops missing = unfold skip_foreign in ground arith

take_frame-Reads :
    (rest : Bytes) (n : ℕ) (e : Option DcsEvent)
    → take_frame rest ≡ advance n e
    → Reads (0x1B ∷ b'P' ∷ b'$' ∷ b'd' ∷ rest) n e
take_frame-Reads rest n e h = elim (Option-cases (find_st rest)) [
  | inl missing ↦ absurd (stops missing)
  | inr (rel, e') ↦
      let (body, t, after, split, there, size) = find_st-Split rest rel e' in
      let taken = take_frame-st body t after there in
      (
        ground (arith, taken),
        inr (
          body,
          t,
          after,
          ap (λ r. 0x1B ∷ b'P' ∷ b'$' ∷ b'd' ∷ r)
              (split ∙ sym (append_assoc body (st_bytes t) after)),
          ground (arith, taken, length-append body (st_bytes t)),
          ground (arith, taken),
        ),
      )
]
  where
    stops : find_st rest ≡ none → ⊥
    stops missing = unfold take_frame in ground arith

scan_step-Reads :
    (rest : Bytes) (n : ℕ) (e : Option DcsEvent) → scan_step rest ≡ advance n e → Reads rest n e
unfolding scan_step
scan_step-Reads [] n e h = cc
scan_step-Reads (a ∷ []) n e h = cc
scan_step-Reads (a ∷ b ∷ []) n e h = cc
scan_step-Reads (a ∷ b ∷ c ∷ []) n e h = cc
scan_step-Reads (a ∷ b ∷ c ∷ d ∷ rest) n e h = elim (Bool-cases (a == 0x1B && b == b'P')) [
  | inr other ↦ (ground arith, inl (ground arith))
  | inl dcs ↦ elim (Bool-cases (c == b'$' && d == b'd')) [
    | inr other ↦
        let read = skip_foreign-Reads (c ∷ d ∷ rest) n e (ground arith) in
        (omega (arith, read), inl read.1)
    | inl ours ↦
        let same : a ∷ b ∷ c ∷ d ∷ rest ≡ 0x1B ∷ b'P' ∷ b'$' ∷ b'd' ∷ rest = ground arith in
        rw same (take_frame-Reads rest n e (ground arith))
  ]
]

push_event-Frames :
    (idx n : ℕ) (rest : Bytes) (e : Option DcsEvent) (later : List LocatedDcsEvent)
    → Reads rest n e
    → Frames (idx + n) (drop n rest) later
    → Frames idx rest (push_event idx n e later)
unfolding push_event
push_event-Frames idx n rest none later r f = pass n r.0 f
push_event-Frames idx n rest (some ev) later (fits, inl e) f = absurd (cc)
push_event-Frames idx n rest (some ev) later (fits, inr (body, t, after, split, len, read)) f =
    let behind : drop n rest ≡ after =
      ap (λ r. drop n r) split
      ∙ ap (λ k. drop k (segment_bytes (frame body t) ++ after)) len
      ∙ drop-length (segment_bytes (frame body t)) after in
    found body t after (record { start = idx; end_exclusive = idx + n; event = ev }) split refl
      (ap (λ k. idx + k) len) read (subst (λ r. Frames (idx + n) r later) behind f)

scan_loop-Frames : (fuel idx : ℕ) (rest : Bytes) → Frames idx rest (scan_loop fuel idx rest)
unfolding scan_loop
scan_loop-Frames zero idx rest = done
scan_loop-Frames (suc fuel) idx rest = elim (Move-cases (scan_step rest)) [
  | inl e ↦ rw (e, scan_loop) done
  | inr (n, ev, e) ↦
      rw (e, scan_loop)
        (push_event-Frames idx n rest ev (scan_loop fuel (idx + n) (drop n rest))
          (scan_step-Reads rest n ev e) (scan_loop-Frames fuel (idx + n) (drop n rest)))
]

-- Of any slice, each event that `scan_dcs_events` reports is a frame that stands in the slice at
-- the reported offsets and whose body decodes to that event; the frames come in the order of the
-- slice and do not overlap.
pub scan_dcs_events-Frames : (bytes : Bytes) → Frames 0 bytes (scan_dcs_events bytes)
unfolding scan_dcs_events
scan_dcs_events-Frames bytes = scan_loop-Frames (length bytes) 0 bytes
