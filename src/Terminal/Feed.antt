-- ===== src/Terminal/Feed.antt =====
-- `feed` returns: where it does not panic.
use bed_term.Prelude.{
  ℕ, ◌-◌, ◌≤◌, ◌≡◌, refl, sym, ap, subst, ◌∙◌, inl, inr, true, ◌||◌, Option, none, some, List, [],
  ◌∷◌, arith, ltb, Bool-cases, ◌>>=◌, >>=-eq-some, Bytes, length, take, drop,
}
use bed_term.Prelude.Int.{ℤ}
use bed_term.Alacritty.{Emulator}
use bed_term.BlockGrid.{BlockGrid, feed_grid}
use bed_term.Blocks.{
  Block, append_output_bytes, BlockStore, fresh_block, started, apply, open_block, set_open,
}
use bed_term.Blocks.Session.{
  set_at-length, get_elem?-length, Session, stored, store_of, prompted, session_apply, IsRunning,
  apply-session_apply,
}
use bed_term.Dcs.Body.{DcsEvent, precmd, preexec, command_finished}
use bed_term.Dcs.Sniffer.{Vte, LocatedEvent, feed_with_positions}
use bed_term.Dcs.Sniffer.Offsets.{Before, InOrder, start_of, feed_with_positions-InOrder}
use bed_term.Terminal.{
  slice, Terminal, dispatch_to_block, active, dispatch_some, dispatch_chunk, capture_some,
  capture_output_bytes, current_grid_absolute_line, capture_content, content_end_of, feed_events,
  feed_rest, feed_bytes,
}

slice-some :
    (bytes : Bytes) (a b : ℕ)
    → a ≤ b
    → b ≤ length bytes
    → slice bytes a b ≡ some (take (b - a) (drop a bytes))
unfolding slice
slice-some bytes a b h k = ground arith

module _ (E : Emulator) where
  -- A store that keeps a session whose block at hand, if any, is running.
  abbrev pub IsStore : BlockStore E → Type 0
  IsStore s = (v : Session E) × (s ≡ store_of E v) × IsRunning E v.current

  stored-IsStore :
      (past : List (Block E)) (o : Option (Block E)) (n : ℕ) (start : Option ℕ) (b c : Block E)
      → open_block E (stored E past o n start) ≡ some b
      → IsRunning E o
      → c.is_running ≡ b.is_running
      → IsStore (set_open E (stored E past o n start) c)
  unfolding open_block set_open
  stored-IsStore past none n start b c h r e = cc
  stored-IsStore past (some d) n start b c h r e =
      let found : some d ≡ some b = sym (get_elem?-length past d) ∙ h in
      let same : d ≡ b = cc in
      (
        record { past = past; current = some c; next_id = n; command_start = start },
        rw set_at-length refl,
        e ∙ ap (λ x. x.is_running) (sym same) ∙ r,
      )

  pub set_open-IsStore :
      (s : BlockStore E) (b c : Block E)
      → IsStore s
      → open_block E s ≡ some b
      → c.is_running ≡ b.is_running
      → IsStore (set_open E s c)
  set_open-IsStore s b c (v, e, r) h k =
      subst (λ s'. IsStore (set_open E s' c)) (sym e)
        (stored-IsStore v.past v.current v.next_id v.command_start b c
          (ap (open_block E) (sym e) ∙ h) r k)

  session_apply-IsRunning :
      (v : Session E) (event : DcsEvent) (line : ℤ) (now cols rows : ℕ)
      → IsRunning E v.current
      → IsRunning E (session_apply E v event line now cols rows).current
  unfolding fresh_block started
  session_apply-IsRunning v (precmd pwd branch) line now cols rows r = refl
  session_apply-IsRunning v (preexec command) line now cols rows r =
      prompted-running v.current v.next_id r
    where
      prompted-running :
          (o : Option (Block E)) (n : ℕ) → IsRunning E o → (prompted E o n line).0.is_running ≡ true
      prompted-running none n h = refl
      prompted-running (some b) n h = h
  session_apply-IsRunning v (command_finished code) line now cols rows r = tt

  pub apply-IsStore :
      (s : BlockStore E) (event : DcsEvent) (line : ℤ) (now cols rows : ℕ)
      → IsStore s
      → (s' : BlockStore E) × (apply E s event line now cols rows ≡ some s') × IsStore s'
  apply-IsStore s event line now cols rows (v, e, r) =
      let w = session_apply E v event line now cols rows in
      (
        store_of E w,
        ap (λ x. apply E x event line now cols rows) e
            ∙ apply-session_apply E v event line now cols rows r,
        (w, refl, session_apply-IsRunning v event line now cols rows r),
      )

module _ (E : Emulator) (V : Vte) where
  active-some :
      (s : BlockStore E) (b : Block E) (g : BlockGrid E)
      → active E V s ≡ some (b, g)
      → (open_block E s ≡ some b) × (b.grid ≡ some g)
  unfolding active
  active-some s b g h =
      let (c, o, k) = >>=-eq-some (open_block E s) (λ x. x.grid >>= λ y. some (x, y)) h in
      let (g', e, l) = >>=-eq-some c.grid (λ y. some (c, y)) k in
      let pair : ◌≡◌ {A = Block E × BlockGrid E} (c, g') (b, g) = cc in
      (
        o ∙ ap some (ap (λ p. p.0) pair),
        sym (ap (λ p. p.0.grid) pair) ∙ e ∙ ap some (ap (λ p. p.1) pair),
      )

  dispatch_some-IsStore :
      (t : Terminal E V) (bytes : Bytes) (o : Option (Block E × BlockGrid E))
      → active E V t.blocks ≡ o
      → IsStore E t.blocks
      → IsStore E (dispatch_some E V t bytes o).blocks
  unfolding dispatch_some dispatch_to_block active
  dispatch_some-IsStore t bytes none h s = s
  dispatch_some-IsStore t bytes (some (b, g)) h s =
      let g' = feed_grid E g bytes in
      let kept =
        set_open-IsStore E t.blocks b (record b { grid = some g' }) s (active-some t.blocks b g h).0
          refl in
      elim (Bool-cases ((E.mode g.term).alt_screen || (E.mode g'.term).alt_screen)) [
        | inl e ↦ rw e kept
        | inr e ↦ rw e kept
      ]

  pub dispatch_chunk-IsStore :
      (t : Terminal E V) (bytes : Bytes)
      → IsStore E t.blocks
      → IsStore E (dispatch_chunk E V t bytes).blocks
  unfolding dispatch_chunk
  dispatch_chunk-IsStore t [] s = s
  dispatch_chunk-IsStore t (b ∷ bs) s =
      dispatch_some-IsStore t (b ∷ bs) (active E V t.blocks) refl s

  capture_some-IsStore :
      (t : Terminal E V) (bytes : Bytes) (o : Option (Block E × BlockGrid E))
      → active E V t.blocks ≡ o
      → IsStore E t.blocks
      → IsStore E (capture_some E V t bytes o).blocks
  unfolding capture_some active append_output_bytes
  capture_some-IsStore t bytes none h s = s
  capture_some-IsStore t bytes (some (b, g)) h s =
      set_open-IsStore E t.blocks b (append_output_bytes E b bytes) s (active-some t.blocks b g h).0
        refl

  capture_output_bytes-IsStore :
      (t : Terminal E V) (bytes : Bytes)
      → IsStore E t.blocks
      → IsStore E (capture_output_bytes E V t bytes).blocks
  unfolding capture_output_bytes
  capture_output_bytes-IsStore t [] s = s
  capture_output_bytes-IsStore t (b ∷ bs) s =
      capture_some-IsStore t (b ∷ bs) (active E V t.blocks) refl s

  capture_content-IsStore :
      (t : Terminal E V) (bytes : Bytes) (at content_end : ℕ)
      → content_end ≤ length bytes
      → IsStore E t.blocks
      → (t' : Terminal E V) × (capture_content E V t bytes at content_end ≡ some t')
        × IsStore E t'.blocks
  unfolding capture_content
  capture_content-IsStore t bytes at content_end h s = elim (Bool-cases (ltb at content_end)) [
    | inl e ↦
        let c = take (content_end - at) (drop at bytes) in
        (
          capture_output_bytes E V t c,
          rw (e, slice-some bytes at content_end (ground arith) h) refl,
          capture_output_bytes-IsStore t c s,
        )
    | inr e ↦ (t, rw e refl, s)
  ]

  Before-content : (o : Option ℕ) (stop : ℕ) → Before stop o → content_end_of E V o stop ≤ stop
  Before-content none stop h = omega arith
  Before-content (some k) stop h = omega (arith, h)

  feed_events-IsStore :
      (t : Terminal E V) (bytes : Bytes) (now at : ℕ) (ls : List LocatedEvent)
      → at ≤ length bytes
      → InOrder at (length bytes) ls
      → IsStore E t.blocks
      → (t' : Terminal E V) × (at' : ℕ) × (feed_events E V t bytes now at ls ≡ some (t', at'))
        × (at' ≤ length bytes)
        × IsStore E t'.blocks
  unfolding feed_events
  feed_events-IsStore t bytes now at [] h o s = (t, at, refl, h, s)
  feed_events-IsStore t bytes now at (l ∷ ls) h (lo, hi, start, later) s =
      let chunk = take (l.frame_end - at) (drop at bytes) in
      let content = content_end_of E V l.frame_start l.frame_end in
      let u = dispatch_chunk E V t chunk in
      let bound = Before-content l.frame_start l.frame_end start in
      let (w, captured, k) =
        capture_content-IsStore u bytes at content (omega (arith, bound))
          (dispatch_chunk-IsStore t chunk s) in
      let line = current_grid_absolute_line E V w in
      let (blocks, applied, m) = apply-IsStore E w.blocks l.event line now t.cols t.rows k in
      let (v, at', rest, r, q) =
        feed_events-IsStore (record w { blocks = blocks }) bytes now l.frame_end ls hi later m in
      (v, at', rw (slice-some bytes at l.frame_end lo hi, captured, applied) rest, r, q)

  InOrder-mono : (m n hi : ℕ) (ls : List LocatedEvent) → m ≤ n → InOrder n hi ls → InOrder m hi ls
  InOrder-mono m n hi [] h o = tt
  InOrder-mono m n hi (l ∷ ls) h (lo, o, b, r) = (omega arith, o, b, r)

  feed_rest-IsStore :
      (t : Terminal E V) (bytes : Bytes) (at : ℕ)
      → at ≤ length bytes
      → IsStore E t.blocks
      → (t' : Terminal E V) × (feed_rest E V bytes (t, at) ≡ some t') × IsStore E t'.blocks
  unfolding feed_rest
  feed_rest-IsStore t bytes at h s =
      let chunk = take (length bytes - at) (drop at bytes) in
      rw (slice-some bytes at (length bytes) h (omega arith)) (
        capture_content-IsStore (dispatch_chunk E V t chunk) bytes at (length bytes) (omega arith)
          (dispatch_chunk-IsStore t chunk s))

  -- A terminal whose sniffer has noted no start of a frame and whose store keeps a session with a
  -- running block at hand or none, as a new terminal does, takes any chunk without an index or a
  -- slice out of range, whatever events are in it, and its store keeps such a session again.
  pub feed_bytes-returns :
      (t : Terminal E V) (bytes : Bytes) (now : ℕ)
      → start_of V t.dcs ≡ none
      → IsStore E t.blocks
      → (t' : Terminal E V) × (feed_bytes E V t bytes now ≡ some t') × IsStore E t'.blocks
  unfolding feed_bytes
  feed_bytes-returns t bytes now h s =
      let (dcs, events) = feed_with_positions V t.dcs bytes in
      let order = feed_with_positions-InOrder V t.dcs bytes h in
      let (w, at, fed, k, q) =
        feed_events-IsStore (record t { dcs = dcs }) bytes now 0 events (omega arith)
          (InOrder-mono 0 1 (length bytes) events (omega arith) order) s in
      let (v, rest, r) = feed_rest-IsStore w bytes at k q in
      (v, ap (λ m. m >>= feed_rest E V bytes) fed ∙ rest, r)
