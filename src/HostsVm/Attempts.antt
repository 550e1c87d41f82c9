-- ===== src/HostsVm/Attempts.antt =====
-- Connection attempts of the view model of rust-core/bedterm-ios/src/hosts_vm.rs over any calls.
use bed_term.Prelude.{
  ℕ, ◌≡◌, refl, ap, subst, inl, inr, Bool, true, false, Option, none, some, List, [], ◌∷◌, arith,
  Bool-cases,
}
use bed_term.Prelude.Text.{text_eq_refl, text_eq→eq, Text, is_id}
use bed_term.HostsVm.{
  EntryMeta, PendingMismatch, SwapConfirmation, DeleteConfirmation, HostsVm, new, FromStr,
  with_entries, set_entries_from_snapshot, merge_parsed, merge_injected, set_load_failed,
  start_dispatch, connect_or_ask, request_connect, swap_to, confirm_swap, cancel_swap,
  connect_completed_session, connect_completed_mismatch, connect_completed_error, retry_of,
  retry_after_mismatch, clear_mismatch, session_ended, end_live_session, request_delete, clear_if,
  delete_of, confirm_delete, cancel_delete,
}
use bed_term.HostsVm.Events.{
  Event, snapshot, inject, load_outcome, tap, accept_swap, refuse_swap, session_opened,
  key_mismatch, connect_error, retry, dismiss_mismatch, screen_closed, end_tap, delete_tap,
  accept_delete, refuse_delete, asked, step, noted, run_from, run,
}
use mathlib.Core.List.{Memᴰ}

pub is_id→eq : (o : Option Text) (id : Text) → is_id o id ≡ true → o ≡ some id
is_id→eq none id h = cc
is_id→eq (some x) id h = ap some (text_eq→eq x id h)

pub is_id_refl : (o : Option Text) (id : Text) → o ≡ some id → is_id o id ≡ true
is_id_refl o id h = rw h (text_eq_refl id)

-- The id of a field, if it has one, is among `ids`.
abbrev pub IsAmong : List Text → Option Text → Type 0
IsAmong ids none = Unit
IsAmong ids (some id) = Memᴰ id ids

abbrev pub mismatch_id : Option PendingMismatch → Option Text
mismatch_id none = none
mismatch_id (some m) = some m.source_id

-- The ids that the view model holds for a connection that is made, live, or to be made again.
pub record IsAsked (ids : List Text) (vm : HostsVm) : Type 0 where
  pub flight : IsAmong ids vm.in_flight_id
  pub session : IsAmong ids vm.current_session_id
  pub mismatch : IsAmong ids (mismatch_id vm.pending_mismatch)

IsAmong_more : (x : Text) (ids : List Text) (o : Option Text) → IsAmong ids o → IsAmong (x ∷ ids) o
IsAmong_more x ids none h = tt
IsAmong_more x ids (some id) h = Memᴰ.tail h

-- A dispatch adds its id.
dispatch-IsAsked :
    (vm : HostsVm) (ids : List Text) (id : Text)
    → IsAmong ids vm.current_session_id
    → IsAmong ids (mismatch_id vm.pending_mismatch)
    → IsAsked (id ∷ ids) (start_dispatch vm id)
unfolding start_dispatch
dispatch-IsAsked vm ids id h k = record {
  flight = Memᴰ.head refl;
  session = IsAmong_more id ids _ h;
  mismatch = IsAmong_more id ids _ k;
}

request_connect-IsAsked :
    (vm : HostsVm) (ids : List Text) (id : Text)
    → IsAsked ids vm
    → IsAsked (noted (asked (request_connect vm id).1) ids) (request_connect vm id).0
unfolding request_connect connect_or_ask
request_connect-IsAsked vm ids id h = ground (arith, dispatch-IsAsked vm ids id)

swap_to-IsAsked :
    (vm : HostsVm) (ids : List Text) (o : Option SwapConfirmation)
    → IsAsked ids vm
    → IsAsked (noted (swap_to vm o).1 ids) (swap_to vm o).0
unfolding swap_to
swap_to-IsAsked vm ids none h = h
swap_to-IsAsked vm ids (some c) h = dispatch-IsAsked _ ids c.swap_target tt h.mismatch

retry_of-IsAsked :
    (vm : HostsVm) (ids : List Text) (o : Option PendingMismatch)
    → IsAsked ids vm
    → IsAsked (noted (retry_of vm o).1 ids) (retry_of vm o).0
unfolding retry_of
retry_of-IsAsked vm ids none h = h
retry_of-IsAsked vm ids (some m) h = dispatch-IsAsked _ ids m.source_id h.session tt

-- A completion of the attempt that is made.
completed-IsAmong :
    (o : Option Text) (ids : List Text) (id : Text)
    → IsAmong ids o
    → is_id o id ≡ true
    → Memᴰ id ids
completed-IsAmong none ids id h e = cc
completed-IsAmong (some x) ids id h e = subst (λ y. Memᴰ y ids) (text_eq→eq x id e) h

clear_if-IsAmong :
    (flag : Bool) (id : Text) (ids : List Text) (o : Option Text)
    → IsAmong ids o
    → IsAmong ids (clear_if flag id o)
unfolding clear_if
clear_if-IsAmong flag id ids o h = ground arith

delete_of-IsAsked :
    (vm : HostsVm) (ids : List Text) (o : Option DeleteConfirmation)
    → IsAsked ids vm
    → IsAsked ids (delete_of vm o).0
unfolding delete_of
delete_of-IsAsked vm ids none h = h
delete_of-IsAsked vm ids (some c) h = record {
  flight = clear_if-IsAmong c.is_in_flight c.delete_target ids vm.in_flight_id h.flight;
  session = clear_if-IsAmong c.is_live c.delete_target ids vm.current_session_id h.session;
  mismatch = h.mismatch;
}

snapshot-IsAsked :
    (vm : HostsVm) (ids : List Text) (o : Option (List EntryMeta))
    → IsAsked ids vm
    → IsAsked ids (with_entries vm o) × IsAsked ids (merge_parsed vm o)
unfolding with_entries merge_parsed
snapshot-IsAsked vm ids none h = ground arith
snapshot-IsAsked vm ids (some xs) h = ground arith

step-IsAsked :
    (from_str : FromStr) (vm : HostsVm) (ids : List Text) (e : Event)
    → IsAsked ids vm
    → IsAsked (noted (step from_str vm e).1 ids) (step from_str vm e).0
unfolding step
step-IsAsked from_str vm ids (snapshot json) h =
    unfold set_entries_from_snapshot in (snapshot-IsAsked vm ids (from_str json) h).0
step-IsAsked from_str vm ids (inject json) h =
    unfold merge_injected in (snapshot-IsAsked vm ids (from_str json) h).1
step-IsAsked from_str vm ids (load_outcome value) h = unfold set_load_failed in ground arith
step-IsAsked from_str vm ids (tap id) h = request_connect-IsAsked vm ids id h
step-IsAsked from_str vm ids accept_swap h =
    unfold confirm_swap in swap_to-IsAsked vm ids vm.swap_confirmation h
step-IsAsked from_str vm ids refuse_swap h = unfold cancel_swap in ground arith
step-IsAsked from_str vm ids (session_opened id) h =
    unfold connect_completed_session in ground (arith, completed-IsAmong vm.in_flight_id ids id)
step-IsAsked from_str vm ids (key_mismatch id stored remote host port) h =
    unfold connect_completed_mismatch in ground (arith, completed-IsAmong vm.in_flight_id ids id)
step-IsAsked from_str vm ids (connect_error id) h = unfold connect_completed_error in ground arith
step-IsAsked from_str vm ids retry h =
    unfold retry_after_mismatch in retry_of-IsAsked vm ids vm.pending_mismatch h
step-IsAsked from_str vm ids dismiss_mismatch h = unfold clear_mismatch in ground arith
step-IsAsked from_str vm ids screen_closed h = unfold session_ended in ground arith
step-IsAsked from_str vm ids end_tap h = unfold end_live_session in ground arith
step-IsAsked from_str vm ids (delete_tap id) h = unfold request_delete in ground arith
step-IsAsked from_str vm ids accept_delete h =
    unfold confirm_delete in delete_of-IsAsked vm ids vm.delete_confirmation h
step-IsAsked from_str vm ids refuse_delete h = unfold cancel_delete in ground arith

run_from-IsAsked :
    (from_str : FromStr) (vm : HostsVm) (ids : List Text) (es : List Event)
    → IsAsked ids vm
    → let r = run_from from_str vm ids es in IsAsked r.1 r.0
unfolding run_from
run_from-IsAsked from_str vm ids [] h = h
run_from-IsAsked from_str vm ids (e ∷ es) h =
    let s = step from_str vm e in
    run_from-IsAsked from_str s.0 (noted s.1 ids) es (step-IsAsked from_str vm ids e h)

new-IsAsked : IsAsked [] new
unfolding new
new-IsAsked = record { flight = tt; session = tt; mismatch = tt }

-- In every run of the view model from the new one, whatever events come in whatever order, the
-- host in flight, the host of the live session and the host whose key is presented for a retry
-- are each one for which a connection was asked for.
pub run-IsAsked :
    (from_str : FromStr) (es : List Event) → let r = run from_str es in IsAsked r.1 r.0
unfolding run
run-IsAsked from_str es = run_from-IsAsked from_str new [] es new-IsAsked

-- A callback of an attempt that is not the last one changes nothing.
pub completed_late :
    (vm : HostsVm) (id : Text)
    → ¬ (vm.in_flight_id ≡ some id)
    → (connect_completed_session vm id ≡ vm)
      × ((stored remote host : Text) (port : ℕ)
          → connect_completed_mismatch vm id stored remote host port ≡ vm)
      × (connect_completed_error vm id ≡ vm)
unfolding connect_completed_session connect_completed_mismatch connect_completed_error
completed_late vm id h =
    let e : is_id vm.in_flight_id id ≡ false = elim (Bool-cases (is_id vm.in_flight_id id)) [
      | inl t ↦ absurd (h (is_id→eq vm.in_flight_id id t))
      | inr f ↦ f
    ] in
    (rw e refl, λ stored remote host port. rw e refl, rw e refl)
