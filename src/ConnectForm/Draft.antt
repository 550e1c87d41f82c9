-- ===== src/ConnectForm/Draft.antt =====
-- `ConnectFormDraft` of rust-core/bedterm-ios/src/connect_form/model.rs, and what it says of a form
-- that the view model of connect_form_vm.rs would save.
use bed_term.Prelude.{
  ℕ, ◌≡◌, inl, inr, Bool, true, false, not, ◌&&◌, ◌||◌, Option, none, some, List, [], ◌∷◌, arith,
  if◌then◌else◌, Bool-cases, is_some,
}
use bed_term.Prelude.Text.{codes, Text, is_empty}
use bed_term.L10n.{L10n}
use bed_term.ConnectForm.Address.{trim, normalized_host, normalized_port}
use bed_term.ConnectForm.Vm.{
  Mode, add, edit, ConnectFormVm, new, reset_to_add, Prefill, prefill_edit, set_label, set_host,
  set_port_text, set_username, set_password, set_passphrase, set_private_key_bytes, set_using_key,
  requires_fresh_secret, preserve_password, preserve_key, port_fits, lacks_secret, validate,
}

pub data AuthMode : Type 0 where
  password_mode : AuthMode
  key_mode : AuthMode

pub record ConnectFormDraft : Type 0 where
  pub id : Option Text
  pub label : Text
  pub host : Text
  pub port : Text
  pub username : Text
  pub auth_mode : AuthMode
  pub password_set : Bool
  pub key_set : Bool
  pub key_label : Option Text
  pub password_typed : Bool
  pub key_touched : Bool

unfoldable pub blank_draft : ConnectFormDraft
blank_draft = record {
  id = none;
  label = [];
  host = [];
  port = codes "22";
  username = [];
  auth_mode = password_mode;
  password_set = false;
  key_set = false;
  key_label = none;
  password_typed = false;
  key_touched = false;
}

pub data ValidationError : Type 0 where
  host_required : ValidationError
  username_required : ValidationError
  port_invalid : ValidationError
  password_required : ValidationError
  key_required : ValidationError

unfoldable pub message : ValidationError → Text
message host_required = codes "Host, port and username are required."
message username_required = codes "Host, port and username are required."
message port_invalid = codes "Host, port and username are required."
message password_required = codes "Password is required."
message key_required = codes "Please import a private key file."

-- The `match self.auth_mode`.
validate_secret : ConnectFormDraft → AuthMode → Option ValidationError
validate_secret d password_mode =
    let editing = is_some d.id in
    let needs_fresh = not editing || (not d.password_set || d.password_typed) in
    if needs_fresh && not d.password_typed
    then if editing && d.password_set then none else some password_required
    else none
validate_secret d key_mode = if not (d.key_set || d.key_touched) then some key_required else none

-- `Ok(())` is `none`.
unfoldable pub validate_draft : ConnectFormDraft → Option ValidationError
unfolding validate_secret
validate_draft d =
    if is_empty (normalized_host d.host)
    then some host_required
    else if is_empty (trim d.username)
    then some username_required
    else if port_fits (normalized_port d.host d.port)
    then validate_secret d d.auth_mode
    else some port_invalid

abbrev mode_of : Bool → AuthMode
mode_of true = key_mode
mode_of false = password_mode

abbrev id_of : Mode → Option Text
id_of add = none
id_of (edit id original password key passphrase) = some id

-- The draft that a form shows.
unfoldable pub draft_of : ConnectFormVm → ConnectFormDraft
draft_of vm = record {
  id = id_of vm.mode;
  label = vm.label_text;
  host = vm.host_text;
  port = vm.port_text;
  username = vm.username_text;
  auth_mode = mode_of vm.is_using_key;
  password_set = preserve_password vm.mode;
  key_set = preserve_key vm.mode;
  key_label = none;
  password_typed = vm.password_touched;
  key_touched = vm.private_key_touched;
}

-- A secret that is there has been typed: nothing else puts one into the form.
pub record IsTouched (vm : ConnectFormVm) : Type 0 where
  pub password_is : is_empty vm.password_text ≡ false → vm.password_touched ≡ true
  pub key_is : is_empty vm.private_key ≡ false → vm.private_key_touched ≡ true

pub data Input : Type 0 where
  reset : Input
  prefill : Prefill → Input
  label_input : Text → Input
  host_input : Text → Input
  port_input : Text → Input
  username_input : Text → Input
  password_input : Text → Input
  passphrase_input : Text → Input
  key_input : List ℕ → Input
  key_switch : Bool → Input

unfoldable pub input : ConnectFormVm → Input → ConnectFormVm
input vm reset = reset_to_add vm
input vm (prefill e) = prefill_edit vm e
input vm (label_input value) = set_label vm value
input vm (host_input value) = set_host vm value
input vm (port_input value) = set_port_text vm value
input vm (username_input value) = set_username vm value
input vm (password_input value) = set_password vm value
input vm (passphrase_input value) = set_passphrase vm value
input vm (key_input bytes) = set_private_key_bytes vm bytes
input vm (key_switch value) = set_using_key vm value

unfoldable pub inputs : ConnectFormVm → List Input → ConnectFormVm
inputs vm [] = vm
inputs vm (i ∷ is) = inputs (input vm i) is

input-IsTouched : (vm : ConnectFormVm) (i : Input) → IsTouched vm → IsTouched (input vm i)
unfolding input reset_to_add prefill_edit set_label set_host set_port_text set_username set_password
    set_passphrase set_private_key_bytes set_using_key new
input-IsTouched vm i h = ground arith

inputs-IsTouched : (vm : ConnectFormVm) (is : List Input) → IsTouched vm → IsTouched (inputs vm is)
unfolding inputs
inputs-IsTouched vm [] h = h
inputs-IsTouched vm (i ∷ is) h = inputs-IsTouched (input vm i) is (input-IsTouched vm i h)

draft-secret :
    (vm : ConnectFormVm)
    → IsTouched vm
    → lacks_secret vm ≡ false
    → validate_secret (draft_of vm) (mode_of vm.is_using_key) ≡ none
unfolding draft_of validate_secret lacks_secret requires_fresh_secret
draft-secret vm h k = elim (Bool-cases vm.is_using_key) [
  | inl e ↦ ground (arith, e, h.key_is, k)
  | inr e ↦ ground (arith, e, h.password_is, k)
]

accepted-draft :
    (vm : ConnectFormVm) (l : L10n)
    → IsTouched vm
    → validate l vm ≡ none
    → validate_draft (draft_of vm) ≡ none
unfolding validate_draft validate
accepted-draft vm l h v =
    let s = draft-secret vm h (ground (arith, v)) in unfold draft_of in ground (arith, v, s)

new-IsTouched : IsTouched new
unfolding new
new-IsTouched = ground arith

-- Where the form accepts what was typed since it was new, the draft of the same fields is accepted.
pub validate_draft-draft_of :
    (l : L10n) (is : List Input)
    → let vm = inputs new is in validate l vm ≡ none → validate_draft (draft_of vm) ≡ none
validate_draft-draft_of l is h =
    accepted-draft (inputs new is) l (inputs-IsTouched new is new-IsTouched) h
