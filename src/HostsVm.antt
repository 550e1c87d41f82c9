-- ===== src/HostsVm.antt =====
-- rust-core/bedterm-ios/src/hosts_vm.rs: the view model of the saved hosts. The list of the entries,
-- which connection is being made, which session is live, and what the user is being asked. Parsing
-- a snapshot is serde's, a parameter here. The alerts' texts are in HostsVm/Alerts.
pub mod Events
pub mod Alerts
pub mod Attempts
pub mod Sessions
pub mod Settle
pub mod Deletion
pub mod Merge
use bed_term.Prelude.{
  ℕ, Bool, true, false, ◌&&◌, ◌||◌, Option, none, some, List, [], ◌∷◌, ◌++◌, if◌then◌else◌, is_some,
}
use bed_term.Prelude.Text.{text_eq, Text, is_id, is_empty}

pub record EntryMeta : Type 0 where
  pub id : Text
  pub label : Text
  pub host : Text
  pub port : ℕ
  pub username : Text
  pub auth_is_key : Bool

-- `display_name`; 64 is `@`.
unfoldable pub display_name : EntryMeta → Text
display_name e = if is_empty e.label then e.username ++ (64 ∷ e.host) else e.label

pub record PendingMismatch : Type 0 where
  pub stored : Text
  pub remote : Text
  pub mismatch_host : Text
  pub mismatch_port : ℕ
  pub source_id : Text

pub record SwapConfirmation : Type 0 where
  pub swap_target : Text
  pub swap_name : Text

pub record DeleteConfirmation : Type 0 where
  pub delete_target : Text
  pub delete_name : Text
  pub is_live : Bool
  pub is_in_flight : Bool

-- What the Swift side is asked to do. `Action::None` is `stay`.
pub data Action : Type 0 where
  stay : Action
  connect : Text → Action
  disconnect : Action

pub record HostsVm : Type 0 where
  pub entries : List EntryMeta
  pub in_flight_id : Option Text
  pub current_session_id : Option Text
  pub pending_mismatch : Option PendingMismatch
  pub swap_confirmation : Option SwapConfirmation
  pub delete_confirmation : Option DeleteConfirmation
  pub load_failed : Bool

unfoldable pub new : HostsVm
new = record {
  entries = [];
  in_flight_id = none;
  current_session_id = none;
  pending_mismatch = none;
  swap_confirmation = none;
  delete_confirmation = none;
  load_failed = false;
}

-- `serde_json::from_str::<Vec<EntryMeta>>`, with its error dropped.
abbrev pub FromStr : Type 0
FromStr = Text → Option (List EntryMeta)

with_entries : HostsVm → Option (List EntryMeta) → HostsVm
with_entries vm (some parsed) = record vm { entries = parsed; load_failed = false }
with_entries vm none = record vm { entries = []; load_failed = true }

unfoldable pub set_entries_from_snapshot : FromStr → HostsVm → Text → HostsVm
unfolding with_entries
set_entries_from_snapshot from_str vm json = with_entries vm (from_str json)

-- `iter().any(|e| e.id == id)`.
unfoldable pub has_entry : Text → List EntryMeta → Bool
has_entry id [] = false
has_entry id (e ∷ es) = text_eq e.id id || has_entry id es

-- The loop of `merge_injected`.
unfoldable pub merge_entries : List EntryMeta → List EntryMeta → List EntryMeta
merge_entries entries [] = entries
merge_entries entries (extra ∷ extras) =
    merge_entries (if has_entry extra.id entries then entries else entries ++ extra ∷ []) extras

merge_parsed : HostsVm → Option (List EntryMeta) → HostsVm
merge_parsed vm (some extras) = record vm { entries = merge_entries vm.entries extras }
merge_parsed vm none = vm

unfoldable pub merge_injected : FromStr → HostsVm → Text → HostsVm
unfolding merge_parsed
merge_injected from_str vm json = merge_parsed vm (from_str json)

unfoldable pub set_load_failed : HostsVm → Bool → HostsVm
set_load_failed vm value = record vm { load_failed = value }

-- `iter().find(..).map(EntryMeta::display_name).unwrap_or_default()`.
unfoldable pub name_among : Text → List EntryMeta → Text
name_among id [] = []
name_among id (e ∷ es) = if text_eq e.id id then display_name e else name_among id es

unfoldable pub display_name_for : HostsVm → Text → Text
display_name_for vm id = name_among id vm.entries

unfoldable pub start_dispatch : HostsVm → Text → HostsVm
start_dispatch vm id = record vm { in_flight_id = some id }

-- The part of `request_connect` after its first test.
unfoldable pub connect_or_ask : HostsVm → Text → Option Text → HostsVm × Action
connect_or_ask vm id none = (start_dispatch vm id, connect id)
connect_or_ask vm id (some session_id) =
    if text_eq session_id id then (start_dispatch vm id, connect id) else (
      record vm {
        swap_confirmation = some (record { swap_target = id; swap_name = display_name_for vm id });
      },
      stay,
    )

unfoldable pub request_connect : HostsVm → Text → HostsVm × Action
request_connect vm id =
    if is_id vm.in_flight_id id then (vm, stay) else connect_or_ask vm id vm.current_session_id

swap_to : HostsVm → Option SwapConfirmation → HostsVm × Option Text
swap_to vm none = (vm, none)
swap_to vm (some c) =
    let taken : HostsVm = record vm { swap_confirmation = none; current_session_id = none } in
    (start_dispatch taken c.swap_target, some c.swap_target)

-- `take()` of a `None` leaves it.
unfoldable pub confirm_swap : HostsVm → HostsVm × Option Text
unfolding swap_to
confirm_swap vm = swap_to vm vm.swap_confirmation

unfoldable pub cancel_swap : HostsVm → HostsVm
cancel_swap vm = record vm { swap_confirmation = none }

unfoldable pub connect_completed_session : HostsVm → Text → HostsVm
connect_completed_session vm id =
    if is_id vm.in_flight_id id
    then record vm { current_session_id = some id; in_flight_id = none }
    else vm

unfoldable pub connect_completed_mismatch : HostsVm → Text → Text → Text → Text → ℕ → HostsVm
connect_completed_mismatch vm id stored remote host port =
    let mismatch : PendingMismatch = record {
      stored = stored;
      remote = remote;
      mismatch_host = host;
      mismatch_port = port;
      source_id = id;
    } in
    if is_id vm.in_flight_id id
    then record vm { pending_mismatch = some mismatch; in_flight_id = none }
    else vm

unfoldable pub connect_completed_error : HostsVm → Text → HostsVm
connect_completed_error vm id =
    if is_id vm.in_flight_id id then record vm { in_flight_id = none } else vm

retry_of : HostsVm → Option PendingMismatch → HostsVm × Option Text
retry_of vm none = (vm, none)
retry_of vm (some m) =
    let taken : HostsVm = record vm { pending_mismatch = none } in
    (start_dispatch taken m.source_id, some m.source_id)

unfoldable pub retry_after_mismatch : HostsVm → HostsVm × Option Text
unfolding retry_of
retry_after_mismatch vm = retry_of vm vm.pending_mismatch

unfoldable pub clear_mismatch : HostsVm → HostsVm
clear_mismatch vm = record vm { pending_mismatch = none }

unfoldable pub session_ended : HostsVm → HostsVm
session_ended vm = record vm { current_session_id = none }

unfoldable pub end_live_session : HostsVm → HostsVm × Action
end_live_session vm =
    if is_some vm.current_session_id
    then (record vm { current_session_id = none }, disconnect)
    else (vm, stay)

unfoldable pub request_delete : HostsVm → Text → HostsVm
request_delete vm id =
    let confirmation : DeleteConfirmation = record {
      delete_target = id;
      delete_name = display_name_for vm id;
      is_live = is_id vm.current_session_id id;
      is_in_flight = is_id vm.in_flight_id id;
    } in
    record vm { delete_confirmation = some confirmation }

-- `entries.retain(|e| e.id != id)`.
unfoldable pub retain_others : Text → List EntryMeta → List EntryMeta
retain_others id [] = []
retain_others id (e ∷ es) =
    let later = retain_others id es in if text_eq e.id id then later else e ∷ later

-- `if flag && field == Some(id) { field = None }`.
clear_if : Bool → Text → Option Text → Option Text
clear_if flag id field = if flag && is_id field id then none else field

delete_of : HostsVm → Option DeleteConfirmation → HostsVm × Option Text
unfolding clear_if
delete_of vm none = (vm, none)
delete_of vm (some c) = (
  record vm {
    delete_confirmation = none;
    in_flight_id = clear_if c.is_in_flight c.delete_target vm.in_flight_id;
    current_session_id = clear_if c.is_live c.delete_target vm.current_session_id;
    entries = retain_others c.delete_target vm.entries;
  },
  some c.delete_target,
)

unfoldable pub confirm_delete : HostsVm → HostsVm × Option Text
unfolding delete_of
confirm_delete vm = delete_of vm vm.delete_confirmation

unfoldable pub cancel_delete : HostsVm → HostsVm
cancel_delete vm = record vm { delete_confirmation = none }
