-- ===== src/HostsVm/Events.antt =====
-- rust-core/bedterm-ios/src/hosts_vm.rs, driven from outside: the calls of the Swift side and of the
-- user as events, and what a sequence of them does to the view model.
use bed_term.HostsVm.{
  Action, stay, connect, disconnect, HostsVm, new, FromStr, set_entries_from_snapshot,
  merge_injected, set_load_failed, request_connect, confirm_swap, cancel_swap,
  connect_completed_session, connect_completed_mismatch, connect_completed_error,
  retry_after_mismatch, clear_mismatch, session_ended, end_live_session, request_delete,
  confirm_delete, cancel_delete,
}
use bed_term.Prelude.{ℕ, Bool, Option, none, some, List, [], ◌∷◌}
use bed_term.Prelude.Text.{Text}

-- One call of a method that changes the view model.
pub data Event : Type 0 where
  snapshot : Text → Event
  inject : Text → Event
  load_outcome : Bool → Event
  tap : Text → Event
  accept_swap : Event
  refuse_swap : Event
  session_opened : Text → Event
  key_mismatch : Text → Text → Text → Text → ℕ → Event
  connect_error : Text → Event
  retry : Event
  dismiss_mismatch : Event
  screen_closed : Event
  end_tap : Event
  delete_tap : Text → Event
  accept_delete : Event
  refuse_delete : Event

-- The id that an action asks Swift to connect to.
abbrev pub asked : Action → Option Text
asked stay = none
asked (connect id) = some id
asked disconnect = none

-- The view model after an event, and the id that Swift is asked to connect to, if any.
unfoldable pub step : FromStr → HostsVm → Event → HostsVm × Option Text
step from_str vm (snapshot json) = (set_entries_from_snapshot from_str vm json, none)
step from_str vm (inject json) = (merge_injected from_str vm json, none)
step from_str vm (load_outcome value) = (set_load_failed vm value, none)
step from_str vm (tap id) = let r = request_connect vm id in (r.0, asked r.1)
step from_str vm accept_swap = confirm_swap vm
step from_str vm refuse_swap = (cancel_swap vm, none)
step from_str vm (session_opened id) = (connect_completed_session vm id, none)
step from_str vm (key_mismatch id stored remote host port) =
    (connect_completed_mismatch vm id stored remote host port, none)
step from_str vm (connect_error id) = (connect_completed_error vm id, none)
step from_str vm retry = retry_after_mismatch vm
step from_str vm dismiss_mismatch = (clear_mismatch vm, none)
step from_str vm screen_closed = (session_ended vm, none)
step from_str vm end_tap = let r = end_live_session vm in (r.0, asked r.1)
step from_str vm (delete_tap id) = (request_delete vm id, none)
step from_str vm accept_delete = let r = confirm_delete vm in (r.0, none)
step from_str vm refuse_delete = (cancel_delete vm, none)

abbrev pub noted : Option Text → List Text → List Text
noted none ids = ids
noted (some id) ids = id ∷ ids

-- The view model after the events, and the ids that Swift was asked to connect to, last first.
unfoldable pub run_from : FromStr → HostsVm → List Text → List Event → HostsVm × List Text
run_from from_str vm ids [] = (vm, ids)
run_from from_str vm ids (e ∷ es) =
    let s = step from_str vm e in run_from from_str s.0 (noted s.1 ids) es

unfoldable pub run : FromStr → List Event → HostsVm × List Text
unfolding run_from
run from_str es = run_from from_str new [] es
