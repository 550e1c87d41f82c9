-- ===== src/Tests/Connections.antt =====
-- hosts_vm.rs at concrete calls.
use bed_term.Prelude.{◌≡◌, refl, true, false, none, some, List, [], ◌∷◌}
use bed_term.Prelude.Text.{codes, text_eq, Text, is_id}
use bed_term.HostsVm.{
  EntryMeta, PendingMismatch, HostsVm, new, FromStr, has_entry, start_dispatch, connect_or_ask,
  request_connect, connect_completed_session, retry_after_mismatch, request_delete, confirm_delete,
}
use bed_term.HostsVm.Events.{
  Event, tap, session_opened, connect_error, screen_closed, step, run_from, run,
}
use bed_term.HostsVm.Attempts.{IsAsked, run-IsAsked}
use bed_term.HostsVm.Sessions.{run_one_session, retry_after_mismatch-replaces}
use bed_term.HostsVm.Deletion.{IsWithout, confirm_delete-request_delete, confirm_delete_opened}
use bed_term.HostsVm.Settle.{run_from_settles}

-- No snapshot is read.
abbrev no_json : FromStr
no_json json = none

-- The session of `a` is live, and `a` is tapped again.
abbrev again : List Event
again = tap (codes "a") ∷ session_opened (codes "a") ∷ tap (codes "a") ∷ []

run-IsAsked_example : IsAsked (codes "a" ∷ codes "a" ∷ []) (run no_json again).0
unfolding run run_from step new request_connect connect_or_ask start_dispatch
    connect_completed_session text_eq
run-IsAsked_example = run-IsAsked no_json again

run_one_session_example : ◌≡◌ {A = Text} (codes "a") (codes "a")
unfolding run run_from step new request_connect connect_or_ask start_dispatch
    connect_completed_session text_eq
run_one_session_example =
    run_one_session no_json again (codes "a") (codes "a") (tt, (tt, (tt, tt))) refl refl

host : Text → EntryMeta
host id = record {
  id = id;
  label = [];
  host = codes "h";
  port = 22;
  username = codes "u";
  auth_is_key = false;
}

-- A host with a live session, and one that is being connected to.
abbrev two_hosts : HostsVm
two_hosts = record {
  entries = host (codes "a") ∷ host (codes "b") ∷ [];
  in_flight_id = some (codes "b");
  current_session_id = none;
  pending_mismatch = none;
  swap_confirmation = none;
  delete_confirmation = none;
  load_failed = false;
}

confirm_delete-request_delete_example :
    let r = confirm_delete (request_delete two_hosts (codes "b")) in
    (r.1 ≡ some (codes "b"))
    × (r.0.delete_confirmation ≡ none)
    × IsWithout (codes "b") two_hosts.entries r.0.entries
    × (has_entry (codes "a") r.0.entries ≡ true)
    × (is_id r.0.current_session_id (codes "a") ≡ false)
    × (is_id r.0.in_flight_id (codes "a") ≡ false)
unfolding text_eq has_entry host
confirm_delete-request_delete_example =
    confirm_delete-request_delete two_hosts (codes "b") (codes "a")

confirm_delete_opened_example :
    let r =
      confirm_delete
        (connect_completed_session (request_delete two_hosts (codes "b")) (codes "b")) in
    (has_entry (codes "b") r.0.entries ≡ false) × (r.0.current_session_id ≡ some (codes "b"))
confirm_delete_opened_example = confirm_delete_opened two_hosts (codes "b") refl refl

abbrev changed_key : PendingMismatch
changed_key = record {
  stored = codes "old";
  remote = codes "new";
  mismatch_host = codes "h";
  mismatch_port = 22;
  source_id = codes "a";
}

abbrev review : HostsVm
review = record two_hosts {
  in_flight_id = none;
  current_session_id = some (codes "b");
  pending_mismatch = some changed_key;
}

retry_after_mismatch-replaces_example :
    let retried = retry_after_mismatch review in
    let opened = connect_completed_session retried.0 (codes "a") in
    (retried.0.current_session_id ≡ some (codes "b"))
    × (retried.1 ≡ some (codes "a"))
    × (opened.current_session_id ≡ some (codes "a"))
retry_after_mismatch-replaces_example =
    retry_after_mismatch-replaces review changed_key (codes "b") refl refl

run_from_settles_example :
    (run_from no_json new []
      (tap (codes "a") ∷ screen_closed ∷ connect_error (codes "a") ∷ [])).0.in_flight_id
    ≡ none
run_from_settles_example =
    run_from_settles no_json (codes "a") new [] (screen_closed ∷ []) (connect_error (codes "a"))
      (unfold step request_connect connect_or_ask start_dispatch new in refl) (tt, tt) refl
