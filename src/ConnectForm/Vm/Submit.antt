-- ===== src/ConnectForm/Vm/Submit.antt =====
-- What saving the form of rust-core/bedterm-ios/src/connect_form_vm.rs yields: `resolve_secrets` and
-- `try_save`. The time and the counter of the ids are arguments.
use mathlib.Core.Option
use bed_term.Prelude.{ℕ, Bool, not, ◌&&◌, ◌||◌, Option, none, some, if◌then◌else◌, Bytes}
use bed_term.Prelude.Text.{codes, Text, is_empty}
use bed_term.L10n.{L10n, t}
use bed_term.ConnectForm.Address.{trim, normalized_host, normalized_port}
use bed_term.ConnectForm.Base64.{base64_encode}
use bed_term.ConnectForm.Uuid.{uuid_v4}
use bed_term.ConnectForm.Vm.{
  Mode, add, edit, SaveOutcome, ConnectFormVm, auth_of, stored_password, stored_private_key,
  stored_passphrase, was, is_add, preserve_password, preserve_key, preserve_pass, validate,
}

abbrev pub switched_auth : ConnectFormVm → Bool
switched_auth vm = not (is_add vm.mode) && not (was (auth_of vm.is_using_key) vm.mode)

unfoldable pub or_typed {ℓ} : {A : Type ℓ} → Option A → A → Option A
or_typed (some stored) typed = some stored
or_typed none typed = some typed

unfoldable pub resolve_password : ConnectFormVm → Option Text
unfolding or_typed
resolve_password vm =
    if vm.is_using_key
    then none
    else if switched_auth vm || (vm.password_touched || not (preserve_password vm.mode))
    then some vm.password_text
    else or_typed (stored_password vm.mode) vm.password_text

unfoldable pub resolve_private_key : ConnectFormVm → Option Bytes
unfolding or_typed
resolve_private_key vm =
    if not vm.is_using_key
    then none
    else if switched_auth vm || (vm.private_key_touched || not (preserve_key vm.mode))
    then some vm.private_key
    else or_typed (stored_private_key vm.mode) vm.private_key

unfoldable pub typed_passphrase : ConnectFormVm → Option Text
typed_passphrase vm = if is_empty vm.passphrase_text then none else some vm.passphrase_text

unfoldable pub resolve_passphrase : ConnectFormVm → Option Text
unfolding typed_passphrase
resolve_passphrase vm =
    if not vm.is_using_key
    then none
    else if switched_auth vm
    then typed_passphrase vm
    else if vm.passphrase_touched
    then typed_passphrase vm
    else if preserve_pass vm.mode
    then stored_passphrase vm.mode
    else typed_passphrase vm

unfoldable pub resolve_secrets : ConnectFormVm → Option Text × Option Bytes × Option Text
resolve_secrets vm = (resolve_password vm, resolve_private_key vm, resolve_passphrase vm)

-- `Result<SaveOutcome, String>`.
pub data SaveResult : Type 0 where
  saved : SaveOutcome → SaveResult
  refused : Text → SaveResult

abbrev mode_id : Mode → Text → Text
mode_id add fresh = fresh
mode_id (edit id original password key passphrase) fresh = id

unfoldable pub outcome : ConnectFormVm → Text → ℕ → SaveOutcome
outcome vm fresh port =
    let secrets = resolve_secrets vm in
    record {
      id = mode_id vm.mode fresh;
      label = trim vm.label_text;
      host = normalized_host vm.host_text;
      port = port;
      username = trim vm.username_text;
      auth_is_key = vm.is_using_key;
      password = if vm.is_using_key then none else secrets.0;
      private_key_base64 = if vm.is_using_key then Option.map base64_encode secrets.1 else none;
      passphrase = if vm.is_using_key then secrets.2 else none;
    }

-- `try_save` behind `validate`, given the port. The `ok_or_else` leaves the message cleared.
unfoldable pub save_with : L10n → ConnectFormVm → Text → Option ℕ → ConnectFormVm × SaveResult
unfolding outcome
save_with l vm fresh none =
    (record vm { error_message = none }, refused (t l (codes "Port must be between 1 and 65535.")))
save_with l vm fresh (some port) =
    (record vm { error_message = none }, saved (outcome vm fresh port))

unfoldable pub save_valid : L10n → ConnectFormVm → Text → Option Text → ConnectFormVm × SaveResult
unfolding save_with
save_valid l vm fresh (some err) = (record vm { error_message = some err }, refused err)
save_valid l vm fresh none = save_with l vm fresh (normalized_port vm.host_text vm.port_text)

-- `fresh` is what `uuid_v4` gives, where it is called.
unfoldable pub try_save : L10n → ℕ → ℕ → ConnectFormVm → ConnectFormVm × SaveResult
unfolding save_valid
try_save l nanos bump vm = save_valid l vm (uuid_v4 nanos bump) (validate l vm)
