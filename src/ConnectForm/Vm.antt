-- ===== src/ConnectForm/Vm.antt =====
-- rust-core/bedterm-ios/src/connect_form_vm.rs: the view model of the form by which a host is added or
-- edited, its fields and its validation.
pub mod Submit
pub mod Save
pub mod Edit
use mathlib.Core.Option
use bed_term.Prelude.{
  ℕ, Bool, true, false, not, ◌&&◌, ◌||◌, Option, none, some, [], map, leb, if◌then◌else◌, is_some,
  Bytes,
}
use bed_term.Prelude.Text.{codes, Text, is_empty}
use bed_term.Prelude.Decimal.{print_ℕ}
use bed_term.L10n.{L10n, t}
use bed_term.ConnectForm.Address.{trim, normalized_host, normalized_port}
use bed_term.ConnectForm.Base64.{base64_encode}
use bed_term.ConnectForm.Uuid.{uuid_v4}

pub data AuthKind : Type 0 where
  by_password : AuthKind
  by_private_key : AuthKind

-- In `edit`: the id, the original kind, and the password, the key and the passphrase that are stored.
pub data Mode : Type 0 where
  add : Mode
  edit : Text → AuthKind → Option Text → Option Bytes → Option Text → Mode

pub record SaveOutcome : Type 0 where
  pub id : Text
  pub label : Text
  pub host : Text
  pub port : ℕ
  pub username : Text
  pub auth_is_key : Bool
  pub password : Option Text
  pub private_key_base64 : Option Bytes
  pub passphrase : Option Text

pub record ConnectFormVm : Type 0 where
  pub mode : Mode
  pub label_text : Text
  pub host_text : Text
  pub port_text : Text
  pub username_text : Text
  pub is_using_key : Bool
  pub password_text : Text
  pub private_key : Bytes
  pub passphrase_text : Text
  pub password_touched : Bool
  pub private_key_touched : Bool
  pub passphrase_touched : Bool
  pub error_message : Option Text

unfoldable pub new : ConnectFormVm
new = record {
  mode = add;
  label_text = [];
  host_text = [];
  port_text = [];
  username_text = [];
  is_using_key = false;
  password_text = [];
  private_key = [];
  passphrase_text = [];
  password_touched = false;
  private_key_touched = false;
  passphrase_touched = false;
  error_message = none;
}

-- It does not depend on the form as it was.
unfoldable pub reset_to_add : ConnectFormVm → ConnectFormVm
unfolding new
reset_to_add vm = record new { port_text = codes "22" }

-- The entry that the form is opened with.
pub record Prefill : Type 0 where
  pub entry_id : Text
  pub entry_label : Text
  pub entry_host : Text
  pub entry_port : ℕ
  pub entry_username : Text
  pub entry_is_key : Bool
  pub existing_password : Option Text
  pub existing_private_key : Option Bytes
  pub existing_passphrase : Option Text

abbrev pub auth_of : Bool → AuthKind
auth_of true = by_private_key
auth_of false = by_password

unfoldable pub prefill_edit : ConnectFormVm → Prefill → ConnectFormVm
prefill_edit vm e = record {
  mode =
      edit e.entry_id (auth_of e.entry_is_key) e.existing_password e.existing_private_key
        e.existing_passphrase;
  label_text = e.entry_label;
  host_text = e.entry_host;
  port_text = print_ℕ e.entry_port;
  username_text = e.entry_username;
  is_using_key = e.entry_is_key;
  password_text = [];
  private_key = [];
  passphrase_text = [];
  password_touched = false;
  private_key_touched = false;
  passphrase_touched = false;
  error_message = none;
}

unfoldable pub set_label : ConnectFormVm → Text → ConnectFormVm
set_label vm value = record vm { label_text = value }

unfoldable pub set_host : ConnectFormVm → Text → ConnectFormVm
set_host vm value = record vm { host_text = value }

unfoldable pub set_port_text : ConnectFormVm → Text → ConnectFormVm
set_port_text vm value = record vm { port_text = value }

unfoldable pub set_username : ConnectFormVm → Text → ConnectFormVm
set_username vm value = record vm { username_text = value }

unfoldable pub set_password : ConnectFormVm → Text → ConnectFormVm
set_password vm value = record vm { password_text = value; password_touched = true }

unfoldable pub set_passphrase : ConnectFormVm → Text → ConnectFormVm
set_passphrase vm value = record vm { passphrase_text = value; passphrase_touched = true }

unfoldable pub set_private_key_bytes : ConnectFormVm → Bytes → ConnectFormVm
set_private_key_bytes vm bytes = record vm { private_key = bytes; private_key_touched = true }

unfoldable pub set_using_key : ConnectFormVm → Bool → ConnectFormVm
set_using_key vm value = record vm { is_using_key = value }

-- `==` on `AuthKind`.
abbrev pub auth_eq : AuthKind → AuthKind → Bool
auth_eq by_password by_password = true
auth_eq by_private_key by_private_key = true
auth_eq _ _ = false

abbrev pub stored_password : Mode → Option Text
stored_password add = none
stored_password (edit id original password key passphrase) = password

abbrev pub stored_private_key : Mode → Option Bytes
stored_private_key add = none
stored_private_key (edit id original password key passphrase) = key

abbrev pub stored_passphrase : Mode → Option Text
stored_passphrase add = none
stored_passphrase (edit id original password key passphrase) = passphrase

-- `Mode::Edit` with the given kind.
abbrev pub was : AuthKind → Mode → Bool
was kind add = false
was kind (edit id original password key passphrase) = auth_eq original kind

abbrev pub is_add : Mode → Bool
is_add add = true
is_add _ = false

-- The shape that `has_password`, `has_private_key` and `has_passphrase` share.
has_secret : Mode → Bool → Bool → Bool → Bool
has_secret mode touched typed stored =
    if is_add mode then typed else if touched then typed else stored

unfoldable pub has_password : ConnectFormVm → Bool
unfolding has_secret
has_password vm =
    has_secret vm.mode vm.password_touched (not (is_empty vm.password_text))
      (was by_password vm.mode && is_some (stored_password vm.mode))

unfoldable pub has_private_key : ConnectFormVm → Bool
unfolding has_secret
has_private_key vm =
    has_secret vm.mode vm.private_key_touched (not (is_empty vm.private_key))
      (was by_private_key vm.mode && is_some (stored_private_key vm.mode))

unfoldable pub has_passphrase : ConnectFormVm → Bool
unfolding has_secret
has_passphrase vm =
    has_secret vm.mode vm.passphrase_touched (not (is_empty vm.passphrase_text))
      (was by_private_key vm.mode && is_some (stored_passphrase vm.mode))

unfoldable pub requires_fresh_secret : ConnectFormVm → Bool
requires_fresh_secret vm =
    if is_add vm.mode
    then true
    else if not (was (auth_of vm.is_using_key) vm.mode)
    then true
    else if vm.is_using_key
    then vm.private_key_touched
    else vm.password_touched

-- The three `matches!` on the mode, two of which `validate` has too.
abbrev pub preserve_password : Mode → Bool
preserve_password mode = was by_password mode && is_some (stored_password mode)

abbrev pub preserve_key : Mode → Bool
preserve_key mode = was by_private_key mode && is_some (stored_private_key mode)

abbrev pub preserve_pass : Mode → Bool
preserve_pass mode = was by_private_key mode && is_some (stored_passphrase mode)

abbrev pub port_fits : Option ℕ → Bool
port_fits none = false
port_fits (some p) = leb 1 p && leb p 65535

-- Whether the secret for the chosen kind is there: the end of `validate`.
unfoldable pub lacks_secret : ConnectFormVm → Bool
lacks_secret vm =
    if vm.is_using_key
    then if requires_fresh_secret vm then is_empty vm.private_key else not (preserve_key vm.mode)
    else if requires_fresh_secret vm
    then is_empty vm.password_text
    else not (preserve_password vm.mode)

unfoldable pub validate : L10n → ConnectFormVm → Option Text
unfolding lacks_secret
validate l vm =
    if is_empty (normalized_host vm.host_text) || is_empty (trim vm.username_text)
    then some (t l (codes "Host, port and username are required."))
    else if not (port_fits (normalized_port vm.host_text vm.port_text))
    then some (t l (codes "Port must be between 1 and 65535."))
    else if not (lacks_secret vm)
    then none
    else if vm.is_using_key
    then some (t l (codes "Please import a private key file."))
    else some (t l (codes "Host, port and username are required."))

unfoldable pub can_save : L10n → ConnectFormVm → Bool
can_save l vm = not (is_some (validate l vm))
