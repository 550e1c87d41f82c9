-- ===== src/Terminal/Stale.antt =====
-- `feed`, of the rest of a frame that started in an earlier call.
use bed_term.Prelude.{
  ℕ, ◌+◌, ◌<◌, ◌≡◌, refl, ap, ◌∙◌, inl, inr, true, none, some, [], ◌∷◌, ◌++◌, arith, ltb,
  Option-cases, ◌>>=◌, Bytes, length, length-append,
}
use bed_term.Alacritty.{Emulator}
use bed_term.Dcs.Body.{DcsEvent, parse_body}
use bed_term.Dcs.Sniffer.{unhook, Vte, feed_with_positions}
use bed_term.Dcs.Sniffer.Stale.{Puts, InFrame, feed_with_positions-stale}
use bed_term.Terminal.{
  slice, Terminal, dispatch_chunk, capture_content, feed_events, feed_rest, feed_bytes,
}

module _ (E : Emulator) (V : Vte) where
  open V use {Parser, advance}

  slice-beyond : (bytes : Bytes) (a b : ℕ) → length bytes < b → slice bytes a b ≡ none
  unfolding slice
  slice-beyond bytes a b h = ground arith

  capture_content-beyond :
      (t : Terminal E V) (bytes : Bytes) (at k : ℕ)
      → at < k
      → length bytes < k
      → capture_content E V t bytes at k ≡ none
  unfolding capture_content
  capture_content-beyond t bytes at k h l =
      let ahead : ltb at k ≡ true = ground arith in rw (ahead, slice-beyond bytes at k l) refl

  feed_events-beyond :
      (t : Terminal E V) (bytes : Bytes) (now at k stop : ℕ) (e : DcsEvent)
      → at < k
      → length bytes < k
      → feed_events E V t bytes now at
          (record { frame_start = some k; frame_end = stop; event = e } ∷ [])
        ≡ none
  unfolding feed_events
  feed_events-beyond t bytes now at k stop e h l = elim (Option-cases (slice bytes at stop)) [
    | inl n ↦ rw n refl
    | inr (c, n) ↦ rw (n, capture_content-beyond (dispatch_chunk E V t c) bytes at k h l) refl
  ]

  -- Where a frame of ours started in an earlier chunk, at an offset beyond the end of the chunk
  -- that brings the rest of its body and an 8-bit terminator, `feed` panics on the latter.
  pub feed_bytes-panics :
      (t : Terminal E V) (k : ℕ) (body : Bytes) (p q : Parser) (e : DcsEvent) (now : ℕ)
      → InFrame V t.dcs (some k)
      → length body + 1 < k
      → Puts V t.dcs.parser body p
      → advance p (0x9C ∷ []) ≡ (q, unhook ∷ [])
      → parse_body (t.dcs.sink.buf ++ body) ≡ some e
      → feed_bytes E V t (body ++ 0x9C ∷ []) now ≡ none
  unfolding feed_bytes
  feed_bytes-panics t k body p q e now f h r a d =
      let bytes = body ++ 0x9C ∷ [] in
      let located = feed_with_positions-stale V t.dcs (some k) body p q e f r a d in
      let dcs = (feed_with_positions V t.dcs bytes).0 in
      let size = length-append body (0x9C ∷ []) in
      ap (λ ls. feed_events E V (record t { dcs = dcs }) bytes now 0 ls >>= feed_rest E V bytes)
        located
      ∙ ap (λ m. m >>= feed_rest E V bytes)
          (feed_events-beyond (record t { dcs = dcs }) bytes now 0 k (length body + 1) e
            (omega (arith, h)) (omega (arith, size, h)))
