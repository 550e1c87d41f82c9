-- ===== src/HostsVm/Settle.antt =====
-- How a connection attempt of rust-core/bedterm-ios/src/hosts_vm.rs ends.
use bed_term.Prelude.{◌≡◌, ◌⊎◌, inr, Option, none, some, List, [], ◌∷◌, ◌++◌, arith, Forall}
use bed_term.Prelude.Text.{text_eq_refl, Text}
use bed_term.HostsVm.{
  EntryMeta, DeleteConfirmation, HostsVm, FromStr, with_entries, set_entries_from_snapshot,
  merge_parsed, merge_injected, set_load_failed, start_dispatch, connect_or_ask, request_connect,
  cancel_swap, connect_completed_session, connect_completed_mismatch, connect_completed_error,
  clear_mismatch, session_ended, end_live_session, request_delete, clear_if, delete_of,
  confirm_delete, cancel_delete,
}
use bed_term.HostsVm.Events.{
  Event, snapshot, inject, load_outcome, tap, accept_swap, refuse_swap, session_opened,
  key_mismatch, connect_error, retry, dismiss_mismatch, screen_closed, end_tap, delete_tap,
  accept_delete, refuse_delete, step, noted, run_from,
}

-- An event by which no connection is asked for.
abbrev pub IsQuiet : Event → Type 0
IsQuiet (tap id) = ⊥
IsQuiet accept_swap = ⊥
IsQuiet retry = ⊥
IsQuiet _ = Unit

-- The callback of an attempt for `id`.
abbrev pub IsOutcome : Text → Event → Type 0
IsOutcome id (session_opened x) = x ≡ id
IsOutcome id (key_mismatch x stored remote host port) = x ≡ id
IsOutcome id (connect_error x) = x ≡ id
IsOutcome id _ = ⊥

-- Only `id` may be in flight.
abbrev IsOnly : Text → HostsVm → Type 0
IsOnly id vm = (vm.in_flight_id ≡ none) ⊎ (vm.in_flight_id ≡ some id)

IsOnly-delete_of :
    (id : Text) (vm : HostsVm) (o : Option DeleteConfirmation)
    → IsOnly id vm
    → IsOnly id (delete_of vm o).0
unfolding delete_of clear_if
IsOnly-delete_of id vm none h = h
IsOnly-delete_of id vm (some c) h = ground arith

IsOnly-snapshot :
    (id : Text) (vm : HostsVm) (o : Option (List EntryMeta))
    → IsOnly id vm
    → IsOnly id (with_entries vm o) × IsOnly id (merge_parsed vm o)
unfolding with_entries merge_parsed
IsOnly-snapshot id vm none h = (h, h)
IsOnly-snapshot id vm (some xs) h = (h, h)

IsOnly-step :
    (from_str : FromStr) (id : Text) (vm : HostsVm) (e : Event)
    → IsQuiet e
    → IsOnly id vm
    → IsOnly id (step from_str vm e).0
unfolding step
IsOnly-step from_str id vm (snapshot json) n h =
    unfold set_entries_from_snapshot in (IsOnly-snapshot id vm (from_str json) h).0
IsOnly-step from_str id vm (inject json) n h =
    unfold merge_injected in (IsOnly-snapshot id vm (from_str json) h).1
IsOnly-step from_str id vm (load_outcome value) n h = unfold set_load_failed in h
IsOnly-step from_str id vm (tap x) n h = absurd n
IsOnly-step from_str id vm accept_swap n h = absurd n
IsOnly-step from_str id vm refuse_swap n h = unfold cancel_swap in h
IsOnly-step from_str id vm (session_opened x) n h = unfold connect_completed_session in ground arith
IsOnly-step from_str id vm (key_mismatch x stored remote host port) n h =
    unfold connect_completed_mismatch in ground arith
IsOnly-step from_str id vm (connect_error x) n h = unfold connect_completed_error in ground arith
IsOnly-step from_str id vm retry n h = absurd n
IsOnly-step from_str id vm dismiss_mismatch n h = unfold clear_mismatch in h
IsOnly-step from_str id vm screen_closed n h = unfold session_ended in h
IsOnly-step from_str id vm end_tap n h = unfold end_live_session in ground arith
IsOnly-step from_str id vm (delete_tap x) n h = unfold request_delete in h
IsOnly-step from_str id vm accept_delete n h =
    unfold confirm_delete in IsOnly-delete_of id vm vm.delete_confirmation h
IsOnly-step from_str id vm refuse_delete n h = unfold cancel_delete in h

outcome-step :
    (from_str : FromStr) (id : Text) (vm : HostsVm) (e : Event)
    → IsOutcome id e
    → IsOnly id vm
    → (step from_str vm e).0.in_flight_id ≡ none
unfolding step connect_completed_session connect_completed_mismatch connect_completed_error
outcome-step from_str id vm (session_opened x) p h = ground (arith, text_eq_refl id)
outcome-step from_str id vm (key_mismatch x stored remote host port) p h =
    ground (arith, text_eq_refl id)
outcome-step from_str id vm (connect_error x) p h = ground (arith, text_eq_refl id)
outcome-step from_str id vm _ p h = absurd p

attempt_settles :
    (from_str : FromStr) (id : Text) (vm : HostsVm) (ids : List Text) (es : List Event) (e : Event)
    → IsOnly id vm
    → Forall IsQuiet es
    → IsOutcome id e
    → (run_from from_str vm ids (es ++ (e ∷ []))).0.in_flight_id ≡ none
unfolding run_from
attempt_settles from_str id vm ids [] e h q o = outcome-step from_str id vm e o h
attempt_settles from_str id vm ids (x ∷ es) e h q o =
    let s = step from_str vm x in
    attempt_settles from_str id s.0 (noted s.1 ids) es e (IsOnly-step from_str id vm x q.0 h) q.1 o

asked-in_flight :
    (from_str : FromStr) (vm : HostsVm) (id : Text)
    → (step from_str vm (tap id)).1 ≡ some id
    → (step from_str vm (tap id)).0.in_flight_id ≡ some id
unfolding step request_connect connect_or_ask start_dispatch
asked-in_flight from_str vm id h = ground arith

-- Where a tap dispatches a connection, then no event of those behind it asks for another one, and
-- at last a callback of that attempt comes, a session, a mismatch or an error, no host is in
-- flight any more.
pub run_from_settles :
    (from_str : FromStr) (id : Text) (vm : HostsVm) (ids : List Text) (es : List Event) (e : Event)
    → (step from_str vm (tap id)).1 ≡ some id
    → Forall IsQuiet es
    → IsOutcome id e
    → (run_from from_str vm ids (tap id ∷ (es ++ (e ∷ [])))).0.in_flight_id ≡ none
unfolding run_from
run_from_settles from_str id vm ids es e h q o =
    let s = step from_str vm (tap id) in
    attempt_settles from_str id s.0 (noted s.1 ids) es e (inr (asked-in_flight from_str vm id h)) q
      o
