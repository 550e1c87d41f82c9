-- ===== src/ConnectForm/Vm/Edit.antt =====
-- Editing an entry with the form of rust-core/bedterm-ios/src/connect_form_vm.rs: which secrets are
-- kept.
use bed_term.Prelude.{
  ℕ, ◌≤◌, ◌<◌, ◌≡◌, refl, ◌⊎◌, inl, inr, true, false, none, some, [], arith, if◌then◌else◌,
  Option-cases, Bytes,
}
use bed_term.Prelude.Text.{Text, is_empty}
use bed_term.Prelude.Decimal.{print_ℕ}
use bed_term.L10n.{L10n}
use bed_term.ConnectForm.Base64.{base64_encode}
use bed_term.ConnectForm.Address.{trim, normalized_host, normalized_port}
use bed_term.ConnectForm.Address.Paste.{IsPlainHost, plain-normalized, plain-port}
use bed_term.ConnectForm.Uuid.{uuid_v4}
use bed_term.ConnectForm.Vm.{
  add, SaveOutcome, ConnectFormVm, Prefill, prefill_edit, requires_fresh_secret, lacks_secret,
  validate,
}
use bed_term.ConnectForm.Vm.Submit.{
  switched_auth, or_typed, resolve_password, resolve_private_key, typed_passphrase,
  resolve_passphrase, resolve_secrets, saved, outcome, save_with, save_valid, try_save,
}
use mathlib.Core.Option

abbrev pub HasSecret : Prefill → Type 0
HasSecret e =
    ((e.entry_is_key ≡ true) × ((k : Bytes) × (e.existing_private_key ≡ some k)))
    ⊎ ((e.entry_is_key ≡ false) × ((p : Text) × (e.existing_password ≡ some p)))

-- An entry as `try_save` leaves one.
pub record IsStored (e : Prefill) : Type 0 where
  pub host_plain : IsPlainHost e.entry_host
  pub port_low : 1 ≤ e.entry_port
  pub port_high : e.entry_port < 65536
  pub label_tight : trim e.entry_label ≡ e.entry_label
  pub username_tight : trim e.entry_username ≡ e.entry_username
  pub username_given : is_empty e.entry_username ≡ false
  pub secret : HasSecret e

-- The entry as it is handed back to be stored.
unfoldable pub entry_of : Prefill → SaveOutcome
entry_of e = record {
  id = e.entry_id;
  label = e.entry_label;
  host = e.entry_host;
  port = e.entry_port;
  username = e.entry_username;
  auth_is_key = e.entry_is_key;
  password = if e.entry_is_key then none else e.existing_password;
  private_key_base64 =
      if e.entry_is_key then Option.map base64_encode e.existing_private_key else none;
  passphrase = if e.entry_is_key then e.existing_passphrase else none;
}

module _ (vm : ConnectFormVm) (e : Prefill) (s : IsStored e) where
  prefill-port : normalized_port e.entry_host (print_ℕ e.entry_port) ≡ some e.entry_port
  prefill-port = plain-port e.entry_host e.entry_port s.host_plain s.port_high

  prefill-host : normalized_host e.entry_host ≡ e.entry_host
  prefill-host = (plain-normalized e.entry_host [] s.host_plain).0

  validate-prefill_edit : (l : L10n) → validate l (prefill_edit vm e) ≡ none
  unfolding validate prefill_edit lacks_secret requires_fresh_secret
  validate-prefill_edit l =
      rw (prefill-port, prefill-host, s.username_tight, s.host_plain.given, s.username_given)
        (elim s.secret [
          | inl (k, (key, q)) ↦ ground (arith, k, q)
          | inr (k, (p, q)) ↦ ground (arith, k, q)
        ])

  outcome-prefill_edit :
      (fresh : Text) → outcome (prefill_edit vm e) fresh e.entry_port ≡ entry_of e
  unfolding outcome prefill_edit resolve_secrets resolve_password resolve_private_key
      resolve_passphrase or_typed typed_passphrase entry_of
  outcome-prefill_edit fresh = elim s.secret [
    | inl (k, (key, q)) ↦ elim (Option-cases e.existing_passphrase) [
      | inl n ↦ ground (arith, k, q, n, prefill-host, s.label_tight, s.username_tight)
      | inr (x, n) ↦ ground (arith, k, q, n, prefill-host, s.label_tight, s.username_tight)
    ]
    | inr (k, (p, q)) ↦ ground (arith, k, q, prefill-host, s.label_tight, s.username_tight)
  ]

-- An entry that is opened for editing and saved without a change is handed back field by field,
-- its secrets included, and leaves the form as it was; for an entry whose host is read as itself,
-- whose port is within 1 and 65535, whose label and user name are trimmed, the latter not empty,
-- and whose secret of its kind is stored.
pub try_save-prefill_edit :
    (l : L10n) (nanos bump : ℕ) (vm : ConnectFormVm) (e : Prefill)
    → IsStored e
    → try_save l nanos bump (prefill_edit vm e) ≡ (prefill_edit vm e, saved (entry_of e))
unfolding try_save save_valid save_with
try_save-prefill_edit l nanos bump vm e s =
    let fresh = uuid_v4 nanos bump in
    let p : normalized_port (prefill_edit vm e).host_text (prefill_edit vm e).port_text
        ≡ some e.entry_port =
      unfold prefill_edit in prefill-port vm e s in
    rw (validate-prefill_edit vm e s l, p, outcome-prefill_edit vm e s fresh)
      (unfold prefill_edit in refl)

-- Where the kind of authentication of an edited entry is switched, the secrets that are saved are
-- those of a new entry with the same fields: no stored password, key or passphrase is taken over.
pub resolve_secrets_switched :
    (vm : ConnectFormVm)
    → switched_auth vm ≡ true
    → resolve_secrets vm ≡ resolve_secrets (record vm { mode = add })
unfolding resolve_secrets resolve_password resolve_private_key resolve_passphrase or_typed
    typed_passphrase
resolve_secrets_switched vm h = ground arith
