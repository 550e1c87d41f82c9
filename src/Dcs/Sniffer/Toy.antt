-- ===== src/Dcs/Sniffer/Toy.antt =====
-- A small DCS parser, to run the sniffer on: it knows `ESC P`, one intermediate byte, the final
-- byte and the two terminators.
use bed_term.Prelude.{
  ℕ, ◌≡◌, refl, false, none, List, [], ◌∷◌, ◌++◌, append_assoc, ◌==◌, if◌then◌else◌, Bytes,
}
use bed_term.Prelude.Text.{codes}
use bed_term.Dcs.Sniffer.{
  Callback, hook, put, unhook, Vte, perform_all, DcsSniffer, feed, claim, read_byte, round,
  positions_loop, feed_with_positions,
}

pub data Mode : Type 0 where
  ground_mode escaped entry dollar passing : Mode

abbrev pub toy_step : Mode → ℕ → Mode × List Callback
toy_step ground_mode b = if b == 0x1B then (escaped, []) else (ground_mode, [])
toy_step escaped b = if b == b'P' then (entry, []) else (ground_mode, [])
toy_step entry b = if b == b'$' then (dollar, []) else (passing, hook [] b ∷ [])
toy_step dollar b = (passing, hook (b'$' ∷ []) b ∷ [])
toy_step passing b =
    if b == 0x9C
    then (ground_mode, unhook ∷ [])
    else if b == 0x1B
    then (escaped, unhook ∷ [])
    else (passing, put b ∷ [])

abbrev pub toy_advance : Mode → Bytes → Mode × List Callback
toy_advance m [] = (m, [])
toy_advance m (b ∷ bs) =
    let (m', calls) = toy_step m b in let (m'', later) = toy_advance m' bs in (m'', calls ++ later)

pub toy_advance-append :
    (m : Mode) (xs ys : Bytes)
    → toy_advance m (xs ++ ys) ≡ (
      (toy_advance (toy_advance m xs).0 ys).0,
      (toy_advance m xs).1 ++ (toy_advance (toy_advance m xs).0 ys).1,
    )
toy_advance-append m [] ys = refl
toy_advance-append m (x ∷ xs) ys =
    let m' = (toy_step m x).0 in
    let calls = (toy_step m x).1 in
    let ih = toy_advance-append m' xs ys in rw append_assoc (λ i. ((ih i).0, calls ++ (ih i).1))

abbrev pub toy : Vte
toy = record {
  Parser = Mode;
  new = ground_mode;
  advance = toy_advance;
  advance_nil = λ p. refl;
  advance_append = toy_advance-append;
}

-- A sniffer between two frames, and a chunk that completes no event.
abbrev pub idle : DcsSniffer toy
idle = record {
  parser = ground_mode;
  sink = record { is_ours = false; buf = []; events = []; frame_start_in_chunk = none };
}

pub idle-abc : (feed_with_positions toy idle (codes "abc")).1 ≡ []
unfolding feed_with_positions positions_loop round read_byte claim feed perform_all
idle-abc = refl

-- The same in two chunks.
pub idle-a : (feed_with_positions toy idle (codes "a")).1 ≡ []
unfolding feed_with_positions positions_loop round read_byte claim feed perform_all
idle-a = refl

pub idle-bc :
    (feed_with_positions toy (feed_with_positions toy idle (codes "a")).0 (codes "bc")).1 ≡ []
unfolding feed_with_positions positions_loop round read_byte claim feed perform_all
idle-bc = refl
