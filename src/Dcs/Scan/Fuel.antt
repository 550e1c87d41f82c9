-- ===== src/Dcs/Scan/Fuel.antt =====
-- The scanner's loop ends by itself: as many rounds as there are bytes are enough.
use bed_term.Prelude.{
  ℕ, zero, suc, ◌+◌, ◌≤◌, ◌<◌, ◌≡◌, refl, ap, ◌∙◌, ◌⊎◌, inl, inr, Option, List, [], ◌∷◌, arith,
  Bytes, length, drop, length-drop,
}
use bed_term.Dcs.Body.{DcsEvent}
use bed_term.Dcs.Scan.{
  LocatedDcsEvent, Move, stop, advance, skip_foreign, take_frame, scan_step, push_event, scan_loop,
}

-- Each round that goes on takes at least a byte.
skip_foreign-pos :
    (rest : Bytes) {n : ℕ} {e : Option DcsEvent} → skip_foreign rest ≡ advance n e → 0 < n
unfolding skip_foreign
skip_foreign-pos rest h = ground arith

take_frame-pos :
    (rest : Bytes) {n : ℕ} {e : Option DcsEvent} → take_frame rest ≡ advance n e → 0 < n
unfolding take_frame
take_frame-pos rest h = ground arith

scan_step-pos : (rest : Bytes) {n : ℕ} {e : Option DcsEvent} → scan_step rest ≡ advance n e → 0 < n
unfolding scan_step
scan_step-pos [] h = cc
scan_step-pos (a ∷ []) h = cc
scan_step-pos (a ∷ b ∷ []) h = cc
scan_step-pos (a ∷ b ∷ c ∷ []) h = cc
scan_step-pos (a ∷ b ∷ c ∷ d ∷ rest) {n} {e} h =
    ground
      (arith, skip_foreign-pos (c ∷ d ∷ rest) {n = n} {e = e}, take_frame-pos rest {n = n} {e = e})

pub Move-cases : (m : Move) → (m ≡ stop) ⊎ ((n : ℕ) × (e : Option DcsEvent) × (m ≡ advance n e))
Move-cases stop = inl refl
Move-cases (advance n e) = inr (n, e, refl)

-- With any two amounts of fuel that the rest's length does not exceed, the loop gives the same.
pub scan_loop-fuel :
    (f g idx : ℕ) (rest : Bytes)
    → length rest ≤ f
    → length rest ≤ g
    → scan_loop f idx rest ≡ scan_loop g idx rest
unfolding scan_loop
scan_loop-fuel zero zero idx rest h k = refl
scan_loop-fuel zero (suc g) idx [] h k = unfold scan_step in refl
scan_loop-fuel zero (suc g) idx (b ∷ rest) h k = absurd (omega arith)
scan_loop-fuel (suc f) zero idx [] h k = unfold scan_step in refl
scan_loop-fuel (suc f) zero idx (b ∷ rest) h k = absurd (omega arith)
scan_loop-fuel (suc f) (suc g) idx rest h k = elim (Move-cases (scan_step rest)) [
  | inl e ↦ rw (e, scan_loop)
  | inr (n, ev, e) ↦
      let shorter = scan_step-pos rest e in
      let left = length-drop n rest in
      rw (e, scan_loop)
        (ap (push_event idx n ev)
          (scan_loop-fuel f g (idx + n) (drop n rest) (omega arith) (omega arith)))
]

-- One round of the loop on a list, with the fuel taken anew for the rest.
abbrev pub scan_from : ℕ → Bytes → List LocatedDcsEvent
scan_from idx rest = scan_loop (length rest) idx rest

pub scan_from-advance :
    (idx : ℕ) (rest : Bytes) {n : ℕ} {e : Option DcsEvent}
    → scan_step rest ≡ advance n e
    → n ≤ length rest
    → scan_from idx rest ≡ push_event idx n e (scan_from (idx + n) (drop n rest))
unfolding scan_loop
scan_from-advance idx rest {n} {e} h k =
    let shorter = scan_step-pos rest h in
    let left = length-drop n rest in
    scan_loop-fuel (length rest) (suc (length rest)) idx rest (omega arith) (omega arith)
    ∙ rw (h, scan_loop)
        (ap (push_event idx n e) (
          scan_loop-fuel (length rest) (length (drop n rest)) (idx + n) (drop n rest) (omega arith)
            (omega arith)))

pub scan_from-stop : (idx : ℕ) (rest : Bytes) → scan_step rest ≡ stop → scan_from idx rest ≡ []
unfolding scan_loop
scan_from-stop idx rest h =
    scan_loop-fuel (length rest) (suc (length rest)) idx rest (omega arith) (omega arith)
    ∙ rw (h, scan_loop)
