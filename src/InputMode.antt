-- ===== src/InputMode.antt =====
-- rust-core/bedterm-ios/src/input_mode.rs: which of the three bottom bars the terminal shows, and
-- whether a keyboard is there. The view controller is a weak pointer: only whether it is null matters.
use bed_term.Prelude.{
  ℕ, suc, ◌≡◌, refl, ◌⊎◌, Bool, true, false, List, [], ◌∷◌, arith, if◌then◌else◌, bool_eq,
}

pub data InputMode : Type 0 where
  state1 : InputMode
  state2 : InputMode
  state3 : InputMode

abbrev pub mode_eq : InputMode → InputMode → Bool
mode_eq state1 state1 = true
mode_eq state2 state2 = true
mode_eq state3 state3 = true
mode_eq _ _ = false

pub record ModeState : Type 0 where
  pub mode : InputMode
  pub sw_kbd_visible : Bool
  pub hw_kbd_attached : Bool
  pub has_vc : Bool

unfoldable pub new : Bool → ModeState
new has_vc = record {
  mode = state2;
  sw_kbd_visible = false;
  hw_kbd_attached = false;
  has_vc = has_vc;
}

-- A method's state, and whether `modeStateDidChange` is posted.
unfoldable pub notify : ModeState → ModeState × Bool
notify s = (s, s.has_vc)

unfoldable pub set_vc : ModeState → Bool → ModeState × Bool
set_vc s has_vc = (record s { has_vc = has_vc }, false)

unfoldable pub set_mode : ModeState → InputMode → ModeState × Bool
unfolding notify
set_mode s next = if mode_eq s.mode next then (s, false) else notify (record s { mode = next })

unfoldable pub composer_tapped : ModeState → ModeState × Bool
unfolding notify
composer_tapped s =
    if mode_eq s.mode state3 then (s, false) else notify (record s { mode = state3 })

unfoldable pub close_composer_tapped : ModeState → ModeState × Bool
unfolding notify
close_composer_tapped s =
    if mode_eq s.mode state2 then (s, false) else notify (record s { mode = state2 })

unfoldable pub set_sw_kbd_visible : ModeState → Bool → ModeState × Bool
unfolding notify
set_sw_kbd_visible s visible =
    if bool_eq s.sw_kbd_visible visible
    then (s, false)
    else notify (record s { sw_kbd_visible = visible })

unfoldable pub set_hw_kbd_attached : ModeState → Bool → ModeState × Bool
unfolding notify
set_hw_kbd_attached s attached =
    if bool_eq s.hw_kbd_attached attached
    then (s, false)
    else notify (record s { hw_kbd_attached = attached })

pub data Call : Type 0 where
  to_mode : InputMode → Call
  tap_composer : Call
  tap_close : Call
  sw_kbd : Bool → Call
  hw_kbd : Bool → Call

unfoldable pub call : ModeState → Call → ModeState × Bool
call s (to_mode next) = set_mode s next
call s tap_composer = composer_tapped s
call s tap_close = close_composer_tapped s
call s (sw_kbd visible) = set_sw_kbd_visible s visible
call s (hw_kbd attached) = set_hw_kbd_attached s attached

-- What the calls ask for, one after the other, and how many notices are posted.
unfoldable pub calls : ModeState → List Call → ModeState × ℕ
calls s [] = (s, 0)
calls s (c ∷ cs) =
    let r = call s c in
    let later = calls r.0 cs in (later.0, (if r.1 then suc later.1 else later.1))

mode_eq→eq : (a b : InputMode) → mode_eq a b ≡ true → a ≡ b
mode_eq→eq state1 state1 h = refl
mode_eq→eq state2 state2 h = refl
mode_eq→eq state3 state3 h = refl
mode_eq→eq state1 state2 h = cc
mode_eq→eq state1 state3 h = cc
mode_eq→eq state2 state1 h = cc
mode_eq→eq state2 state3 h = cc
mode_eq→eq state3 state1 h = cc
mode_eq→eq state3 state2 h = cc

mode_eq_refl : (a : InputMode) → mode_eq a a ≡ true
mode_eq_refl state1 = refl
mode_eq_refl state2 = refl
mode_eq_refl state3 = refl

bool_eq→eq : (a b : Bool) → bool_eq a b ≡ true → a ≡ b
bool_eq→eq a b h = ground arith

-- The view controller is notified exactly where there is one and the call changed the state.
pub call-notices :
    (s : ModeState) (c : Call)
    → ((call s c).1 ≡ true → (s.has_vc ≡ true) × (¬ ((call s c).0 ≡ s)))
      × ((call s c).1 ≡ false → (s.has_vc ≡ false) ⊎ ((call s c).0 ≡ s))
      × ((call s c).0.has_vc ≡ s.has_vc)
unfolding call set_mode composer_tapped close_composer_tapped set_sw_kbd_visible set_hw_kbd_attached
call-notices s (to_mode next) = ground (arith, mode_eq→eq s.mode next, mode_eq_refl next)
call-notices s tap_composer = ground (arith, mode_eq→eq s.mode state3, mode_eq_refl state3)
call-notices s tap_close = ground (arith, mode_eq→eq s.mode state2, mode_eq_refl state2)
call-notices s (sw_kbd visible) = ground (arith, bool_eq→eq s.sw_kbd_visible visible)
call-notices s (hw_kbd attached) = ground (arith, bool_eq→eq s.hw_kbd_attached attached)
