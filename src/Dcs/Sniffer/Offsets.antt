-- ===== src/Dcs/Sniffer/Offsets.antt =====
-- The offsets that `feed_with_positions` reports.
use bed_term.Prelude.{
  ℕ, zero, suc, ◌+◌, ◌-◌, ◌≤◌, ◌<◌, ◌≡◌, refl, sym, ap, subst, ◌∙◌, inl, inr, Bool, true, false,
  not, ◌&&◌, Option, none, some, List, [], ◌∷◌, ◌++◌, arith, ltb, ◌==◌, if◌then◌else◌, Bool-cases,
  Bytes, length, drop, length-append, length-drop, Forall,
}
use bed_term.Dcs.Body.{DcsEvent}
use bed_term.Dcs.Sniffer.{
  Callback, hook, put, unhook, Vte, Sink, perform, perform_all, LocatedEvent, locate, DcsSniffer,
  feed, Loop, claim, read_byte, extra, feed_extra, emit, round, positions_loop, feed_with_positions,
}
use bed_term.Dcs.Sniffer.Rounds.{round_lem}

-- An offset, where there is one, lies before `n`.
abbrev pub Before : ℕ → Option ℕ → Type 0
Before n none = Unit
Before n (some k) = k < n

Before-mono : (m n : ℕ) (o : Option ℕ) → m ≤ n → Before m o → Before n o
Before-mono m n none h b = tt
Before-mono m n (some k) h b = omega arith

-- The frames end one after another in the bytes from `lo` to `hi`, and each starts before its end.
abbrev pub InOrder : ℕ → ℕ → List LocatedEvent → Type 0
InOrder lo hi [] = Unit
InOrder lo hi (l ∷ ls) =
    (lo ≤ l.frame_end)
    × (l.frame_end ≤ hi)
    × Before l.frame_end l.frame_start
    × InOrder l.frame_end hi ls

InOrder-mono : (m n hi : ℕ) (ls : List LocatedEvent) → m ≤ n → InOrder n hi ls → InOrder m hi ls
InOrder-mono m n hi [] h o = tt
InOrder-mono m n hi (l ∷ ls) h o = (omega arith, o.1, o.2, o.3)

-- The events of one round, which end at the same place.
AtEnd : ℕ → List LocatedEvent → Type 0
AtEnd n = Forall λ l. (l.frame_end ≡ n) × Before n l.frame_start

AtEnd-InOrder :
    (lo n hi : ℕ) (ls ms : List LocatedEvent)
    → AtEnd n ls
    → lo ≤ n
    → n ≤ hi
    → InOrder n hi ms
    → InOrder lo hi (ls ++ ms)
unfolding AtEnd
AtEnd-InOrder lo n hi [] ms a h k o = InOrder-mono lo n hi ms h o
AtEnd-InOrder lo n hi (l ∷ ls) ms a h k o =
    let same = a.0.0 in
    (
      omega arith,
      omega arith,
      rw same a.0.1,
      rw same (AtEnd-InOrder n n hi ls ms a.1 (omega arith) k o),
    )

locate-AtEnd :
    (start : Option ℕ) (n : ℕ) (es : List DcsEvent) → Before n start → AtEnd n (locate start n es)
unfolding locate AtEnd
locate-AtEnd start n [] b = tt
locate-AtEnd start n (e ∷ es) b = ((refl, b), locate-AtEnd start n es b)

perform-start :
    (k : Sink) (c : Callback) → (perform k c).frame_start_in_chunk ≡ k.frame_start_in_chunk
unfolding perform
perform-start k (hook is a) = refl
perform-start k (put b) = ground arith
perform-start k unhook = ground arith

perform_all-start :
    (k : Sink) (cs : List Callback)
    → (perform_all k cs).frame_start_in_chunk ≡ k.frame_start_in_chunk
unfolding perform_all
perform_all-start k [] = refl
perform_all-start k (c ∷ cs) = perform_all-start (perform k c) cs ∙ perform-start k c

module _ (V : Vte) where
  abbrev pub start_of : DcsSniffer V → Option ℕ
  start_of s = s.sink.frame_start_in_chunk

  feed-start : (s : DcsSniffer V) (xs : Bytes) → start_of (feed V s xs) ≡ start_of s
  unfolding feed
  feed-start s xs = perform_all-start s.sink (V.advance s.parser xs).1

  feed_extra-start : (s : DcsSniffer V) (xs : Bytes) → start_of (feed_extra V s xs) ≡ start_of s
  unfolding feed_extra
  feed_extra-start s [] = refl
  feed_extra-start s (c ∷ cs) = feed-start s (c ∷ cs)

  -- What the loop knows of its offsets at `i`.
  record Known (n : ℕ) (l : Loop V) : Type 0 where
    esc : Before n l.last_esc
    start : Before n (start_of l.sniffer)

  claim-Known : (b : Bool) (n : ℕ) (l : Loop V) → Known n l → Known n (claim V b l)
  unfolding claim
  claim-Known b n l k = elim (Bool-cases (not b && l.sniffer.sink.is_ours)) [
    | inl e ↦ rw e (record { esc = tt; start = k.esc })
    | inr e ↦ rw e k
  ]

  read_byte-Known : (l : Loop V) (byte : ℕ) → Known l.i l → Known (l.i + 1) (read_byte V l byte)
  unfolding read_byte
  read_byte-Known l byte k = claim-Known l.sniffer.sink.is_ours (l.i + 1) noted (record {
    esc = esc' (byte == 0x1B);
    start =
        rw (feed-start l.sniffer (byte ∷ []))
          (Before-mono l.i (l.i + 1) (start_of l.sniffer) (omega arith) k.start);
  })
    where
      noted : Loop V
      noted = record {
        sniffer = feed V l.sniffer (byte ∷ []);
        i = l.i;
        last_esc = if byte == 0x1B then some l.i else l.last_esc;
      }

      esc' : (b : Bool) → Before (l.i + 1) (if b then some l.i else l.last_esc)
      esc' true = omega arith
      esc' false = Before-mono l.i (l.i + 1) l.last_esc (omega arith) k.esc

  read_byte-i : (l : Loop V) (byte : ℕ) → (read_byte V l byte).i ≡ l.i
  unfolding read_byte claim
  read_byte-i l byte = ground arith

  -- What a round leaves known, and what it reports.
  abbrev Kept : Loop V × List LocatedEvent → Type 0
  Kept r = Known r.0.i r.0 × AtEnd r.0.i r.1

  emit-Kept :
      (before : ℕ) (l : Loop V) (more : Bytes) → Known (l.i + 1) l → Kept (emit V before l more)
  unfolding emit
  emit-Kept before l more k =
      let stop = l.i + 1 + length more in
      let s = feed_extra V l.sniffer more in
      let start : Before stop (start_of s) =
        rw (feed_extra-start l.sniffer more)
          (Before-mono (l.i + 1) stop (start_of l.sniffer) (omega arith) k.start) in
      (
        record { esc = Before-mono (l.i + 1) stop l.last_esc (omega arith) k.esc; start = tt },
        locate-AtEnd (start_of s) stop (drop before s.sink.events) start,
      )

  quiet-Kept : (l : Loop V) → Known (l.i + 1) l → Kept (record l { i = l.i + 1 }, [])
  unfolding AtEnd
  quiet-Kept l k = (record { esc = k.esc; start = k.start }, tt)

  round-Kept : (l : Loop V) (byte : ℕ) (rest : Bytes) → Known l.i l → Kept (round V l byte rest)
  unfolding round
  round-Kept l byte rest k =
      let l' = read_byte V l byte in
      let k' : Known (l'.i + 1) l' =
        subst (λ n. Known (n + 1) l') (sym (read_byte-i l byte)) (read_byte-Known l byte k) in
      elim (Bool-cases (ltb (length l.sniffer.sink.events) (length l'.sniffer.sink.events))) [
        | inl e ↦ rw e (emit-Kept (length l.sniffer.sink.events) l' (extra V byte rest) k')
        | inr e ↦ rw e (quiet-Kept l' k')
      ]

  positions_loop-InOrder :
      (fuel : ℕ) (l : Loop V) (rest : Bytes)
      → Known l.i l
      → InOrder (l.i + 1) (l.i + length rest) (positions_loop V fuel l rest).1
  unfolding positions_loop
  positions_loop-InOrder zero l rest k = tt
  positions_loop-InOrder (suc fuel) l [] k = tt
  positions_loop-InOrder (suc fuel) l (byte ∷ rest) k =
      let r = round V l byte rest in
      let kept = round-Kept l byte rest k in
      let d = round_lem V l byte rest in
      let size : length rest ≡ length d.more + length d.behind =
        ap length d.split ∙ length-append d.more d.behind in
      let n = r.0.i - (l.i + 1) in
      let later = positions_loop V fuel r.0 (drop n rest) in
      let hi : r.0.i + length (drop n rest) ≡ l.i + suc (length rest) =
        omega (arith, length-drop n rest, d.moved, size) in
      AtEnd-InOrder (l.i + 1) r.0.i (l.i + suc (length rest)) r.1 later.1 kept.1
        (omega (arith, d.moved)) (omega (arith, d.moved, size))
        (subst (λ h. InOrder r.0.i h later.1) hi
          (InOrder-mono r.0.i (r.0.i + 1) _ later.1 (omega arith)
            (positions_loop-InOrder fuel r.0 (drop n rest) kept.0)))

  -- For a sniffer that has noted no start, the frames that `feed_with_positions` reports end one
  -- after another within the chunk, and a frame whose start is reported starts before its end.
  pub feed_with_positions-InOrder :
      (s : DcsSniffer V) (bytes : Bytes)
      → start_of s ≡ none
      → InOrder 1 (length bytes) (feed_with_positions V s bytes).1
  unfolding feed_with_positions
  feed_with_positions-InOrder s bytes h =
      let l : Loop V = record { sniffer = s; i = 0; last_esc = none } in
      let hi : 0 + length bytes ≡ length bytes = omega arith in
      subst (λ n. InOrder 1 n (positions_loop V (length bytes) l bytes).1) hi
        (positions_loop-InOrder (length bytes) l bytes (record { esc = tt; start = rw h tt }))
