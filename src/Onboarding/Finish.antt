-- ===== src/Onboarding/Finish.antt =====
-- The flow of rust-core/bedterm-ios/src/onboarding/coordinator.rs can be finished from wherever the
-- user is.
use bed_term.Prelude.{
  ℕ, zero, suc, ◌+◌, ◌≡◌, refl, subst, Bool, true, false, some, List, [], ◌∷◌, arith,
}
use bed_term.Prelude.Int.{pos}
use bed_term.Onboarding.{
  HostKind, mac_os, other, Location, same_wifi, remote, host_kind_from_choice, location_from_choice,
  next_step_after_location, next_step_after_mac_tutorial, is_remote_terminator, Screen,
  host_kind_vc, location_vc, mac_tutorial_vc, local_permission_vc, Coordinator, create_flow_vc,
  push_next, finish, host_kind_chosen, host_kind_choice_cb, push_step, location_chosen,
  location_choice_cb, tutorial_done, mac_tutorial_continue_cb, permission_done,
  local_permission_continue_cb, local_permission_probe_done_cb,
}
use bed_term.Onboarding.Flow.{
  top, ◌⟶◌, chooses_host, chooses_location, reads_tutorial, continues, probed, ◌⟶*◌, here, then,
  IsReady, create_flow_vc-IsSound, ⟶*-IsSound, top-IsReady, bind_returns,
}

-- Some steps lead to one completion more.
abbrev Finishes : Coordinator → Type 0
Finishes c = (d : Coordinator) × (c ⟶* d) × (d.completed ≡ suc c.completed)

Finishes-behind : (c m : Coordinator) → c ⟶ m → m.completed ≡ c.completed → Finishes m → Finishes c
Finishes-behind c m s e (d, r, l) = (d, then s r, omega (arith, e, l))

permission-Finishes :
    (c : Coordinator) (r : Bool) (l : Location)
    → top c.screens ≡ some (local_permission_vc r)
    → c.state.location ≡ some l
    → Finishes c
permission-Finishes c r remote t e = (
  local_permission_continue_cb c,
  then (continues r t) here,
  unfold local_permission_continue_cb permission_done finish in rw e (omega arith),
)
permission-Finishes c r same_wifi t e =
    let waiting : Coordinator = record c { probes = suc c.probes } in
    let eq : local_permission_continue_cb c ≡ waiting =
      unfold local_permission_continue_cb permission_done in rw e refl in
    Finishes-behind c waiting (subst (λ (d : Coordinator). c ⟶ d) eq (continues r t)) refl (
      local_permission_probe_done_cb waiting,
      then (probed (omega arith)) here,
      unfold local_permission_probe_done_cb finish in omega arith,
    )

tutorial-Finishes :
    (c : Coordinator) (l : Location)
    → top c.screens ≡ some mac_tutorial_vc
    → c.state.location ≡ some l
    → Finishes c
unfolding push_next next_step_after_mac_tutorial is_remote_terminator mac_tutorial_continue_cb
    tutorial_done finish
tutorial-Finishes c remote t e =
    let eq : mac_tutorial_continue_cb c ≡ some (finish c) =
      bind_returns c.state.location _ remote e in
    (finish c, then (reads_tutorial t eq) here, unfold finish in omega arith)
tutorial-Finishes c same_wifi t e =
    let shown : Coordinator = push_next c (local_permission_vc false) in
    let eq : mac_tutorial_continue_cb c ≡ some shown =
      bind_returns c.state.location _ same_wifi e in
    Finishes-behind c shown (reads_tutorial t eq) refl
      (permission-Finishes shown false same_wifi refl e)

-- The user says that the host is remote.
location-Finishes :
    (c : Coordinator) (k : HostKind)
    → top c.screens ≡ some location_vc
    → c.state.host_kind ≡ some k
    → Finishes c
unfolding push_next next_step_after_location is_remote_terminator location_from_choice
    location_choice_cb location_chosen push_step
location-Finishes c mac_os t e =
    let chosen : Coordinator = record c { state = record (c.state) { location = some remote } } in
    let shown : Coordinator = push_next chosen mac_tutorial_vc in
    let eq : location_choice_cb c (pos 1) ≡ some shown =
      bind_returns c.state.host_kind _ mac_os e in
    Finishes-behind c shown (chooses_location (pos 1) t eq) refl
      (tutorial-Finishes shown remote refl refl)
location-Finishes c other t e =
    let chosen : Coordinator = record c { state = record (c.state) { location = some remote } } in
    let shown : Coordinator = push_next chosen (local_permission_vc true) in
    let eq : location_choice_cb c (pos 1) ≡ some shown = bind_returns c.state.host_kind _ other e in
    Finishes-behind c shown (chooses_location (pos 1) t eq) refl
      (permission-Finishes shown true remote refl refl)

host-Finishes : (c : Coordinator) → top c.screens ≡ some host_kind_vc → Finishes c
unfolding push_next host_kind_from_choice host_kind_choice_cb host_kind_chosen
host-Finishes c t =
    let chosen : Coordinator = record c { state = record (c.state) { host_kind = some other } } in
    let shown : Coordinator = push_next chosen location_vc in
    let eq : host_kind_choice_cb c (pos 1) ≡ shown = refl in
    Finishes-behind c shown (subst (λ (d : Coordinator). c ⟶ d) eq (chooses_host (pos 1) t)) refl
      (location-Finishes shown other refl refl)

screen-Finishes :
    (c : Coordinator) (vc : Screen) → top c.screens ≡ some vc → IsReady c.state vc → Finishes c
screen-Finishes c host_kind_vc t r = host-Finishes c t
screen-Finishes c location_vc t (k, e) = location-Finishes c k t e
screen-Finishes c mac_tutorial_vc t (l, e) = tutorial-Finishes c l t e
screen-Finishes c (local_permission_vc b) t (l, e) = permission-Finishes c b l t e

shown-top : (vcs : List Screen) → ¬ (vcs ≡ []) → (vc : Screen) × (top vcs ≡ some vc)
shown-top [] h = absurd (h refl)
shown-top (vc ∷ below) h = (vc, refl)

⟶*-trans : {c d e : Coordinator} → c ⟶* d → d ⟶* e → c ⟶* e
⟶*-trans here q = q
⟶*-trans (then s p) q = then s (⟶*-trans p q)

reached-Finishes : (c : Coordinator) → create_flow_vc ⟶* c → Finishes c
reached-Finishes c r =
    let sound = ⟶*-IsSound create_flow_vc c r create_flow_vc-IsSound in
    let (vc, t) = shown-top c.screens sound.shown in
    screen-Finishes c vc t (top-IsReady c vc sound t)

-- From every state that the onboarding reaches, and whatever the number of completions before,
-- steps of the user, and the callback of the probe where one is asked for, lead to any number of
-- further completions: so to the first one where there was none, and to another one where there
-- was.
pub create_flow_vc_finishes :
    (c : Coordinator) (n : ℕ)
    → create_flow_vc ⟶* c
    → (d : Coordinator) × (c ⟶* d) × (d.completed ≡ n + c.completed)
create_flow_vc_finishes c zero r = (c, here, omega arith)
create_flow_vc_finishes c (suc n) r =
    let (d, p, e) = reached-Finishes c r in
    let (f, q, g) = create_flow_vc_finishes d n (⟶*-trans r p) in
    (f, ⟶*-trans p q, omega (arith, e, g))
