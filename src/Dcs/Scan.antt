-- ===== src/Dcs/Scan.antt =====
-- `find_st` and `scan_dcs_events` of dcs.rs: the stateless scanner of one slice.
pub mod Terminators
pub mod Fuel
pub mod Render
pub mod Sound
use bed_term.Prelude.{
  ℕ, zero, suc, ◌+◌, Bool, false, not, ◌&&◌, Option, none, some, List, [], ◌∷◌, ◌==◌, if◌then◌else◌,
  ◌>>=◌, Bytes, length, get_elem?, take, drop,
}
use bed_term.Dcs.Body.{DcsEvent, parse_body}

pub record LocatedDcsEvent : Type 0 where
  pub start : ℕ
  pub end_exclusive : ℕ
  pub event : DcsEvent

-- `bytes.get(0) == Some(&c)` of a rest.
pub next_is : Bytes → ℕ → Bool
next_is [] c = false
next_is (b ∷ bs) c = b == c

-- The offset of the next string terminator: `0x9C`, or the first byte of `ESC \`.
pub find_st : Bytes → Option ℕ
unfolding next_is
find_st [] = none
find_st (b ∷ rest) =
    let later = find_st rest >>= λ i. some (suc i) in
    if b == 0x9C then some 0 else if b == 0x1B && next_is rest b'\\' then some 0 else later

-- What a round of the loop does at `bytes[idx..]`: it breaks off, or moves on by some bytes, over a
-- frame that gave an event or not.
pub data Move : Type 0 where
  stop : Move
  advance : ℕ → Option DcsEvent → Move

-- A foreign DCS, of which `rest` stands behind the introducer: past its terminator.
pub skip_foreign : Bytes → Move
skip_foreign rest = elim (find_st rest) [
  | none ↦ stop
  | some rel ↦ elim (get_elem? rest rel) [
    | none ↦ stop
    | some b ↦
        if b == 0x9C
        then advance (2 + rel + 1) none
        else if b == 0x1B
        then advance (2 + rel + 2) none
        else stop
  ]
]

-- One of our frames, of which `rest` stands behind `ESC P $ d`.
pub take_frame : Bytes → Move
take_frame rest = elim (find_st rest) [
  | none ↦ stop
  | some rel ↦
      let event = parse_body (take rel rest) in
      elim (get_elem? rest rel) [
        | none ↦ stop
        | some b ↦
            if b == 0x9C
            then advance (4 + rel + 1) event
            else if b == 0x1B && next_is (drop (rel + 1) rest) b'\\'
            then advance (4 + rel + 2) event
            else stop
      ]
]

-- The body of the loop, with its guard `idx + 4 <= bytes.len()`.
pub scan_step : Bytes → Move
scan_step (a ∷ b ∷ c ∷ d ∷ rest) =
    if not (a == 0x1B && b == b'P')
    then advance 1 none
    else if not (c == b'$' && d == b'd')
    then skip_foreign (c ∷ d ∷ rest)
    else take_frame rest
scan_step _ = stop

-- `out.push(..)`, where there is an event.
pub push_event : ℕ → ℕ → Option DcsEvent → List LocatedDcsEvent → List LocatedDcsEvent
push_event idx n none later = later
push_event idx n (some e) later = record { start = idx; end_exclusive = idx + n; event = e } ∷ later

-- The loop at `idx`, where `rest` is `bytes[idx..]`. A round moves on by at least one byte.
pub scan_loop : ℕ → ℕ → Bytes → List LocatedDcsEvent
scan_loop zero idx rest = []
scan_loop (suc fuel) idx rest = elim (scan_step rest) [
  | stop ↦ []
  | advance n event ↦ push_event idx n event (scan_loop fuel (idx + n) (drop n rest))
]

pub scan_dcs_events : Bytes → List LocatedDcsEvent
unfolding scan_loop
scan_dcs_events bytes = scan_loop (length bytes) 0 bytes
