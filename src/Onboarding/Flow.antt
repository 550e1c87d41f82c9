-- ===== src/Onboarding/Flow.antt =====
-- The flow of rust-core/bedterm-ios/src/onboarding/coordinator.rs: it never panics, and it can always be
-- finished.
use bed_term.Prelude.{
  ◌<◌, ◌≡◌, refl, subst, Bool, Option, none, some, List, [], ◌∷◌, ◌>>=◌, >>=-eq-some, Forall,
}
use bed_term.Prelude.Int.{ℤ}
use bed_term.Onboarding.{
  HostKind, Location, same_wifi, remote, host_kind_from_choice, location_from_choice, Step,
  location_step, mac_tutorial, local_permission, OnboardingState, next_step_after_location,
  next_step_after_mac_tutorial, Screen, host_kind_vc, location_vc, mac_tutorial_vc,
  local_permission_vc, Coordinator, create_flow_vc, push_next, finish, host_kind_chosen,
  host_kind_choice_cb, push_step, location_chosen, location_choice_cb, tutorial_done,
  mac_tutorial_continue_cb, permission_done, local_permission_continue_cb,
  local_permission_probe_done_cb,
}

-- The screen on the top.
abbrev pub top : List Screen → Option Screen
top [] = none
top (vc ∷ below) = some vc

-- What the user and UIKit do: a callback comes from the top screen; a screen that is not the first may
-- be taken back.
infix 40 ◌⟶◌ ◌⟶*◌
pub data ◌⟶◌ : Coordinator → Coordinator → Type 0 where
  chooses_host :
      {c : Coordinator} (choice : ℤ)
      → top c.screens ≡ some host_kind_vc
      → c ⟶ host_kind_choice_cb c choice
  chooses_location :
      {c d : Coordinator} (choice : ℤ)
      → top c.screens ≡ some location_vc
      → location_choice_cb c choice ≡ some d
      → c ⟶ d
  reads_tutorial :
      {c d : Coordinator}
      → top c.screens ≡ some mac_tutorial_vc
      → mac_tutorial_continue_cb c ≡ some d
      → c ⟶ d
  continues :
      {c : Coordinator} (is_remote : Bool)
      → top c.screens ≡ some (local_permission_vc is_remote)
      → c ⟶ local_permission_continue_cb c
  probed : {c : Coordinator} → 0 < c.probes → c ⟶ local_permission_probe_done_cb c
  goes_back :
      {c : Coordinator} (vc under : Screen) (below : List Screen)
      → c.screens ≡ vc ∷ under ∷ below
      → c ⟶ record c { screens = under ∷ below }

pub data ◌⟶*◌ : Coordinator → Coordinator → Type 0 where
  here : {c : Coordinator} → c ⟶* c
  then : {c d e : Coordinator} → c ⟶ d → d ⟶* e → c ⟶* e

-- What has been chosen before a screen is shown.
abbrev pub IsReady : OnboardingState → Screen → Type 0
IsReady s host_kind_vc = Unit
IsReady s location_vc = (k : HostKind) × (s.host_kind ≡ some k)
IsReady s mac_tutorial_vc = (l : Location) × (s.location ≡ some l)
IsReady s (local_permission_vc is_remote) = (l : Location) × (s.location ≡ some l)

pub record IsSound (c : Coordinator) : Type 0 where
  pub ready : Forall (IsReady c.state) c.screens
  pub shown : ¬ (c.screens ≡ [])

pub create_flow_vc-IsSound : IsSound create_flow_vc
unfolding create_flow_vc
create_flow_vc-IsSound = record { ready = (tt, tt); shown = λ e. cc }

-- A choice keeps what was chosen before.
IsReady-host :
    (s : OnboardingState) (k : HostKind) (vcs : List Screen)
    → Forall (IsReady s) vcs
    → Forall (IsReady (record s { host_kind = some k })) vcs
IsReady-host s k [] h = tt
IsReady-host s k (host_kind_vc ∷ vcs) h = (tt, IsReady-host s k vcs h.1)
IsReady-host s k (location_vc ∷ vcs) h = ((k, refl), IsReady-host s k vcs h.1)
IsReady-host s k (mac_tutorial_vc ∷ vcs) h = (h.0, IsReady-host s k vcs h.1)
IsReady-host s k (local_permission_vc r ∷ vcs) h = (h.0, IsReady-host s k vcs h.1)

IsReady-location :
    (s : OnboardingState) (l : Location) (vcs : List Screen)
    → Forall (IsReady s) vcs
    → Forall (IsReady (record s { location = some l })) vcs
IsReady-location s l [] h = tt
IsReady-location s l (host_kind_vc ∷ vcs) h = (tt, IsReady-location s l vcs h.1)
IsReady-location s l (location_vc ∷ vcs) h = (h.0, IsReady-location s l vcs h.1)
IsReady-location s l (mac_tutorial_vc ∷ vcs) h = ((l, refl), IsReady-location s l vcs h.1)
IsReady-location s l (local_permission_vc r ∷ vcs) h = ((l, refl), IsReady-location s l vcs h.1)

host_kind_chosen-IsSound :
    (c : Coordinator) (o : Option HostKind) → IsSound c → IsSound (host_kind_chosen c o)
unfolding host_kind_chosen push_next
host_kind_chosen-IsSound c none h = h
host_kind_chosen-IsSound c (some k) h = record {
  ready = ((k, refl), IsReady-host c.state k c.screens h.ready);
  shown = λ e. cc;
}

push_step-IsSound :
    (c : Coordinator) (l : Location) (s : Step)
    → c.state.location ≡ some l
    → IsSound c
    → IsSound (push_step c l s)
unfolding push_step push_next
push_step-IsSound c l mac_tutorial p h = record { ready = ((l, p), h.ready); shown = λ e. cc }
push_step-IsSound c l local_permission p h = record { ready = ((l, p), h.ready); shown = λ e. cc }
push_step-IsSound c l location_step p h = h

located-IsSound :
    (c : Coordinator) (l : Location)
    → IsSound c
    → IsSound (record c { state = record (c.state) { location = some l } })
located-IsSound c l h = record {
  ready = IsReady-location c.state l c.screens h.ready;
  shown = h.shown;
}

location_chosen-IsSound :
    (c d : Coordinator) (o : Option Location) → location_chosen c o ≡ some d → IsSound c → IsSound d
unfolding location_chosen
location_chosen-IsSound c d none p h = subst IsSound (cc p) h
location_chosen-IsSound c d (some l) p h =
    let (host, k, q) = >>=-eq-some c.state.host_kind _ p in
    subst IsSound (cc q) (
      push_step-IsSound (record c { state = record (c.state) { location = some l } }) l
        (next_step_after_location host l) refl (located-IsSound c l h))

tutorial_done-IsSound :
    (c : Coordinator) (l : Location) (o : Option Step)
    → c.state.location ≡ some l
    → IsSound c
    → IsSound (tutorial_done c l o)
unfolding tutorial_done push_next finish
tutorial_done-IsSound c l none p h = record { ready = h.ready; shown = h.shown }
tutorial_done-IsSound c l (some local_permission) p h = record {
  ready = ((l, p), h.ready);
  shown = λ e. cc;
}
tutorial_done-IsSound c l (some location_step) p h = h
tutorial_done-IsSound c l (some mac_tutorial) p h = h

pub mac_tutorial_continue-IsSound :
    (c d : Coordinator) → mac_tutorial_continue_cb c ≡ some d → IsSound c → IsSound d
unfolding mac_tutorial_continue_cb
mac_tutorial_continue-IsSound c d p h =
    let (l, k, q) = >>=-eq-some c.state.location _ p in
    subst IsSound (cc q) (tutorial_done-IsSound c l (next_step_after_mac_tutorial l) k h)

permission_done-IsSound :
    (c : Coordinator) (o : Option Location) → IsSound c → IsSound (permission_done c o)
unfolding permission_done finish
permission_done-IsSound c none h = record { ready = h.ready; shown = h.shown }
permission_done-IsSound c (some same_wifi) h = record { ready = h.ready; shown = h.shown }
permission_done-IsSound c (some remote) h = record { ready = h.ready; shown = h.shown }

pub ⟶-IsSound : (c d : Coordinator) → c ⟶ d → IsSound c → IsSound d
⟶-IsSound c _ (chooses_host choice t) h =
    unfold host_kind_choice_cb in host_kind_chosen-IsSound c (host_kind_from_choice choice) h
⟶-IsSound c d (chooses_location choice t p) h =
    unfold location_choice_cb in location_chosen-IsSound c d (location_from_choice choice) p h
⟶-IsSound c d (reads_tutorial t p) h = mac_tutorial_continue-IsSound c d p h
⟶-IsSound c _ (continues r t) h =
    unfold local_permission_continue_cb in permission_done-IsSound c c.state.location h
⟶-IsSound c _ (probed p) h =
    unfold local_permission_probe_done_cb finish in record { ready = h.ready; shown = h.shown }
⟶-IsSound c _ (goes_back vc under below e) h = record {
  ready = (subst (Forall (IsReady c.state)) e h.ready).1;
  shown = λ q. cc;
}

pub ⟶*-IsSound : (c d : Coordinator) → c ⟶* d → IsSound c → IsSound d
⟶*-IsSound c _ here h = h
⟶*-IsSound c d (then {d = m} s r) h = ⟶*-IsSound m d r (⟶-IsSound c m s h)

pub top-cons :
    (vcs : List Screen) (vc : Screen)
    → top vcs ≡ some vc
    → (below : List Screen) × (vcs ≡ vc ∷ below)
top-cons [] vc h = cc
top-cons (x ∷ xs) vc h = (xs, cc h)

pub top-IsReady :
    (c : Coordinator) (vc : Screen) → IsSound c → top c.screens ≡ some vc → IsReady c.state vc
top-IsReady c vc h t =
    let (below, e) = top-cons c.screens vc t in (subst (Forall (IsReady c.state)) e h.ready).0

pub bind_returns {ℓ κ} :
    {A : Type ℓ} {B : Type κ} (o : Option A) (f : A → B) (a : A)
    → o ≡ some a
    → (o >>= λ x. some (f x)) ≡ some (f a)
bind_returns o f a e = rw e refl

location_chosen_returns :
    (c : Coordinator) (k : HostKind) (o : Option Location)
    → c.state.host_kind ≡ some k
    → (d : Coordinator) × (location_chosen c o ≡ some d)
unfolding location_chosen
location_chosen_returns c k none e = (c, refl)
location_chosen_returns c k (some l) e = (_, bind_returns c.state.host_kind _ k e)

-- The callback of a screen.
unfoldable pub callback : Coordinator → Screen → ℤ → Option Coordinator
callback c host_kind_vc choice = some (host_kind_choice_cb c choice)
callback c location_vc choice = location_choice_cb c choice
callback c mac_tutorial_vc choice = mac_tutorial_continue_cb c
callback c (local_permission_vc is_remote) choice = some (local_permission_continue_cb c)

ready_returns :
    (c : Coordinator) (vc : Screen) (choice : ℤ)
    → IsReady c.state vc
    → (d : Coordinator) × (callback c vc choice ≡ some d)
unfolding callback location_choice_cb mac_tutorial_continue_cb
ready_returns c host_kind_vc choice r = (host_kind_choice_cb c choice, refl)
ready_returns c location_vc choice (k, e) =
    location_chosen_returns c k (location_from_choice choice) e
ready_returns c mac_tutorial_vc choice (l, e) = (_, bind_returns c.state.location _ l e)
ready_returns c (local_permission_vc b) choice r = (local_permission_continue_cb c, refl)

-- In every state that the onboarding reaches, the callback of the screen on top returns, whatever
-- choice it is called with: the choices that the steps ask for have been made.
pub callback_returns :
    (c : Coordinator) (vc : Screen) (choice : ℤ)
    → create_flow_vc ⟶* c
    → top c.screens ≡ some vc
    → (d : Coordinator) × (callback c vc choice ≡ some d)
callback_returns c vc choice r t =
    ready_returns c vc choice
      (top-IsReady c vc (⟶*-IsSound create_flow_vc c r create_flow_vc-IsSound) t)
