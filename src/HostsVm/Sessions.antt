-- ===== src/HostsVm/Sessions.antt =====
-- The live session and the connection that is made, in the view model of
-- rust-core/bedterm-ios/src/hosts_vm.rs over any calls.
use bed_term.Prelude.{ℕ, ◌≡◌, refl, Bool, Option, none, some, List, [], ◌∷◌, arith, Forall}
use bed_term.Prelude.Text.{text_eq_refl, text_eq→eq, Text}
use bed_term.HostsVm.{
  EntryMeta, PendingMismatch, SwapConfirmation, DeleteConfirmation, HostsVm, new, FromStr,
  with_entries, set_entries_from_snapshot, merge_parsed, merge_injected, set_load_failed,
  start_dispatch, connect_or_ask, request_connect, swap_to, confirm_swap, cancel_swap,
  connect_completed_session, connect_completed_mismatch, connect_completed_error, retry_of,
  retry_after_mismatch, clear_mismatch, session_ended, end_live_session, request_delete, clear_if,
  delete_of, confirm_delete, cancel_delete,
}
use bed_term.HostsVm.Events.{
  Event, snapshot, inject, load_outcome, tap, accept_swap, refuse_swap, session_opened,
  key_mismatch, connect_error, retry, dismiss_mismatch, screen_closed, end_tap, delete_tap,
  accept_delete, refuse_delete, step, noted, run_from, run,
}

-- A connection that is made while a session is live is one to the host of that session.
abbrev pub IsOne : HostsVm → Type 0
IsOne vm = (a b : Text) → vm.in_flight_id ≡ some a → vm.current_session_id ≡ some b → a ≡ b

abbrev pub IsNoRetry : Event → Type 0
IsNoRetry retry = ⊥
IsNoRetry _ = Unit

request_connect-IsOne : (vm : HostsVm) (id : Text) → IsOne vm → IsOne (request_connect vm id).0
unfolding request_connect connect_or_ask start_dispatch
request_connect-IsOne vm id h a b p q = ground (arith, h a b, text_eq→eq b id)

swap_to-IsOne : (vm : HostsVm) (o : Option SwapConfirmation) → IsOne vm → IsOne (swap_to vm o).0
unfolding swap_to start_dispatch
swap_to-IsOne vm none h = h
swap_to-IsOne vm (some c) h = λ a b p q. cc

clear_if-eq-some :
    (flag : Bool) (id : Text) (o : Option Text) (a : Text)
    → clear_if flag id o ≡ some a
    → o ≡ some a
unfolding clear_if
clear_if-eq-some flag id o a h = ground arith

delete_of-IsOne :
    (vm : HostsVm) (o : Option DeleteConfirmation) → IsOne vm → IsOne (delete_of vm o).0
unfolding delete_of
delete_of-IsOne vm none h = h
delete_of-IsOne vm (some c) h = λ a b p q.
    h a b (clear_if-eq-some c.is_in_flight c.delete_target vm.in_flight_id a p)
      (clear_if-eq-some c.is_live c.delete_target vm.current_session_id b q)

snapshot-IsOne :
    (vm : HostsVm) (o : Option (List EntryMeta))
    → IsOne vm
    → IsOne (with_entries vm o) × IsOne (merge_parsed vm o)
unfolding with_entries merge_parsed
snapshot-IsOne vm none h = (h, h)
snapshot-IsOne vm (some xs) h = (h, h)

completed-IsOne :
    (vm : HostsVm) (id stored remote host : Text) (port : ℕ)
    → IsOne vm
    → IsOne (connect_completed_session vm id)
      × IsOne (connect_completed_mismatch vm id stored remote host port)
      × IsOne (connect_completed_error vm id)
unfolding connect_completed_session connect_completed_mismatch connect_completed_error
completed-IsOne vm id stored remote host port h = (
  λ a b p q. ground (arith, h a b),
  λ a b p q. ground (arith, h a b),
  λ a b p q. ground (arith, h a b),
)

step-IsOne :
    (from_str : FromStr) (vm : HostsVm) (e : Event)
    → IsNoRetry e
    → IsOne vm
    → IsOne (step from_str vm e).0
unfolding step
step-IsOne from_str vm (snapshot json) n h =
    unfold set_entries_from_snapshot in (snapshot-IsOne vm (from_str json) h).0
step-IsOne from_str vm (inject json) n h =
    unfold merge_injected in (snapshot-IsOne vm (from_str json) h).1
step-IsOne from_str vm (load_outcome value) n h = unfold set_load_failed in h
step-IsOne from_str vm (tap id) n h = request_connect-IsOne vm id h
step-IsOne from_str vm accept_swap n h =
    unfold confirm_swap in swap_to-IsOne vm vm.swap_confirmation h
step-IsOne from_str vm refuse_swap n h = unfold cancel_swap in h
step-IsOne from_str vm (session_opened id) n h = (completed-IsOne vm id [] [] [] 0 h).0
step-IsOne from_str vm (key_mismatch id stored remote host port) n h =
    (completed-IsOne vm id stored remote host port h).1
step-IsOne from_str vm (connect_error id) n h = (completed-IsOne vm id [] [] [] 0 h).2
step-IsOne from_str vm retry n h = absurd n
step-IsOne from_str vm dismiss_mismatch n h = unfold clear_mismatch in h
step-IsOne from_str vm screen_closed n h = unfold session_ended in λ a b p q. cc
step-IsOne from_str vm end_tap n h = unfold end_live_session in λ a b p q. ground (arith, h a b)
step-IsOne from_str vm (delete_tap id) n h = unfold request_delete in h
step-IsOne from_str vm accept_delete n h =
    unfold confirm_delete in delete_of-IsOne vm vm.delete_confirmation h
step-IsOne from_str vm refuse_delete n h = unfold cancel_delete in h

run_from-IsOne :
    (from_str : FromStr) (vm : HostsVm) (ids : List Text) (es : List Event)
    → Forall IsNoRetry es
    → IsOne vm
    → IsOne (run_from from_str vm ids es).0
unfolding run_from
run_from-IsOne from_str vm ids [] n h = h
run_from-IsOne from_str vm ids (e ∷ es) n h =
    let s = step from_str vm e in
    run_from-IsOne from_str s.0 (noted s.1 ids) es n.1 (step-IsOne from_str vm e n.0 h)

-- In every run of the view model from the new one in which no mismatch is retried, whatever
-- events come in whatever order, a host that is being connected to while a session is live is the
-- host of that session.
pub run_one_session :
    (from_str : FromStr) (es : List Event) (a b : Text)
    → Forall IsNoRetry es
    → (run from_str es).0.in_flight_id ≡ some a
    → (run from_str es).0.current_session_id ≡ some b
    → a ≡ b
unfolding run new
run_one_session from_str es a b n = run_from-IsOne from_str new [] es n (λ a b p q. cc) a b

-- Where a mismatch is pending and a session of any host is live, a retry asks for the connection
-- and leaves that session as the live one, which the success of the attempt replaces by the host
-- of the mismatch, without a swap that is confirmed.
pub retry_after_mismatch-replaces :
    (vm : HostsVm) (m : PendingMismatch) (b : Text)
    → vm.pending_mismatch ≡ some m
    → vm.current_session_id ≡ some b
    → let retried = retry_after_mismatch vm in
      let opened = connect_completed_session retried.0 m.source_id in
      (retried.0.current_session_id ≡ some b)
      × (retried.1 ≡ some m.source_id)
      × (opened.current_session_id ≡ some m.source_id)
unfolding retry_after_mismatch retry_of start_dispatch connect_completed_session
retry_after_mismatch-replaces vm m b p q = rw p (q, refl, rw (text_eq_refl m.source_id) refl)
