-- ===== src/Onboarding.antt =====
-- rust-core/bedterm-ios/src/onboarding/state.rs, and the flow of onboarding/coordinator.rs: the screens
-- that are pushed, and when the flow is finished. The screens themselves are UIKit's. A callback is
-- given a context, which is not null; `none` is the panic of an `expect`.
pub mod Flow
pub mod Finish
use bed_term.Prelude.{
  ℕ, zero, suc, ◌-◌, Bool, true, false, Option, none, some, List, [], ◌∷◌, ◌>>=◌,
}
use bed_term.Prelude.Int.{ℤ, pos}

pub data HostKind : Type 0 where
  mac_os : HostKind
  other : HostKind

pub data Location : Type 0 where
  same_wifi : Location
  remote : Location

unfoldable pub host_kind_from_choice : ℤ → Option HostKind
host_kind_from_choice (pos zero) = some mac_os
host_kind_from_choice (pos (suc zero)) = some other
host_kind_from_choice _ = none

unfoldable pub location_from_choice : ℤ → Option Location
location_from_choice (pos zero) = some same_wifi
location_from_choice (pos (suc zero)) = some remote
location_from_choice _ = none

pub data Step : Type 0 where
  location_step : Step
  mac_tutorial : Step
  local_permission : Step

pub record OnboardingState : Type 0 where
  pub host_kind : Option HostKind
  pub location : Option Location

unfoldable pub next_step_after_location : HostKind → Location → Step
next_step_after_location mac_os loc = mac_tutorial
next_step_after_location other loc = local_permission

unfoldable pub next_step_after_mac_tutorial : Location → Option Step
next_step_after_mac_tutorial same_wifi = some local_permission
next_step_after_mac_tutorial remote = none

unfoldable pub is_remote_terminator : Location → Bool
is_remote_terminator same_wifi = false
is_remote_terminator remote = true

-- A view controller on the navigation stack; the last is given `is_remote`.
pub data Screen : Type 0 where
  host_kind_vc : Screen
  location_vc : Screen
  mac_tutorial_vc : Screen
  local_permission_vc : Bool → Screen

-- The coordinator: its state, the stack with the top first, how many probes of the local network are
-- under way, and how often the flow was finished.
pub record Coordinator : Type 0 where
  pub state : OnboardingState
  pub screens : List Screen
  pub probes : ℕ
  pub completed : ℕ

unfoldable pub create_flow_vc : Coordinator
create_flow_vc = record {
  state = record { host_kind = none; location = none };
  screens = host_kind_vc ∷ [];
  probes = 0;
  completed = 0;
}

unfoldable pub push_next : Coordinator → Screen → Coordinator
push_next c vc = record c { screens = vc ∷ c.screens }

unfoldable pub finish : Coordinator → Coordinator
finish c = record c { completed = suc c.completed }

unfoldable pub host_kind_chosen : Coordinator → Option HostKind → Coordinator
host_kind_chosen c none = c
host_kind_chosen c (some kind) =
    let chosen : OnboardingState = record (c.state) { host_kind = some kind } in
    push_next (record c { state = chosen }) location_vc

unfoldable pub host_kind_choice_cb : Coordinator → ℤ → Coordinator
unfolding host_kind_chosen
host_kind_choice_cb c choice = host_kind_chosen c (host_kind_from_choice choice)

push_step : Coordinator → Location → Step → Coordinator
push_step c loc mac_tutorial = push_next c mac_tutorial_vc
push_step c loc local_permission = push_next c (local_permission_vc (is_remote_terminator loc))
push_step c loc location_step = c

location_chosen : Coordinator → Option Location → Option Coordinator
unfolding push_step
location_chosen c none = some c
location_chosen c (some loc) =
    let chosen : OnboardingState = record (c.state) { location = some loc } in
    c.state.host_kind >>= λ host.
    some (push_step (record c { state = chosen }) loc (next_step_after_location host loc))

unfoldable pub location_choice_cb : Coordinator → ℤ → Option Coordinator
unfolding location_chosen
location_choice_cb c choice = location_chosen c (location_from_choice choice)

tutorial_done : Coordinator → Location → Option Step → Coordinator
tutorial_done c loc (some local_permission) =
    push_next c (local_permission_vc (is_remote_terminator loc))
tutorial_done c loc (some location_step) = c
tutorial_done c loc (some mac_tutorial) = c
tutorial_done c loc none = finish c

unfoldable pub mac_tutorial_continue_cb : Coordinator → Option Coordinator
unfolding tutorial_done
mac_tutorial_continue_cb c =
    c.state.location >>= λ loc. some (tutorial_done c loc (next_step_after_mac_tutorial loc))

permission_done : Coordinator → Option Location → Coordinator
permission_done c (some same_wifi) = record c { probes = suc c.probes }
permission_done c (some remote) = finish c
permission_done c none = finish c

unfoldable pub local_permission_continue_cb : Coordinator → Coordinator
unfolding permission_done
local_permission_continue_cb c = permission_done c c.state.location

-- The probe that the Swift side was asked for is done.
unfoldable pub local_permission_probe_done_cb : Coordinator → Coordinator
local_permission_probe_done_cb c = finish (record c { probes = c.probes - 1 })
