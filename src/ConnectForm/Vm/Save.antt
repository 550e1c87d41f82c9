-- ===== src/ConnectForm/Vm/Save.antt =====
-- What `try_save` of rust-core/bedterm-ios/src/connect_form_vm.rs yields.
use bed_term.Prelude.{
  ℕ, ◌≤◌, ◌≡◌, refl, ◌⊎◌, inl, inr, true, false, not, ◌||◌, Option, none, some, List, [], arith,
  Bool-cases, Option-cases, Bytes,
}
use bed_term.Prelude.Text.{Text, is_empty}
use bed_term.L10n.{L10n}
use bed_term.ConnectForm.Address.{trim, normalized_host, normalized_port}
use bed_term.ConnectForm.Uuid.{uuid_v4}
use bed_term.ConnectForm.Vm.{
  by_password, by_private_key, SaveOutcome, ConnectFormVm, stored_password, stored_private_key, was,
  requires_fresh_secret, preserve_password, preserve_key, port_fits, lacks_secret, validate,
}
use bed_term.ConnectForm.Vm.Submit.{
  switched_auth, or_typed, resolve_password, resolve_private_key, resolve_secrets, saved, refused,
  outcome, save_with, save_valid, try_save,
}
use bed_term.ConnectForm.Base64.{base64_encode}

-- A secret that is typed is not empty; one that is stored belongs to an entry of the same kind.
abbrev pub IsPassword : ConnectFormVm → Text → Type 0
IsPassword vm p =
    ((vm.password_text ≡ p) × (¬ (p ≡ [])))
    ⊎ ((was by_password vm.mode ≡ true) × (stored_password vm.mode ≡ some p))

abbrev pub IsPrivateKey : ConnectFormVm → Bytes → Type 0
IsPrivateKey vm k =
    ((vm.private_key ≡ k) × (¬ (k ≡ [])))
    ⊎ ((was by_private_key vm.mode ≡ true) × (stored_private_key vm.mode ≡ some k))

-- The secret of the chosen kind, and none of the other.
abbrev pub HasOneSecret : ConnectFormVm → SaveOutcome → Type 0
HasOneSecret vm o =
    ((vm.is_using_key ≡ false)
      × (o.private_key_base64 ≡ none)
      × (o.passphrase ≡ none)
      × ((p : Text) × (o.password ≡ some p) × IsPassword vm p))
    ⊎ ((vm.is_using_key ≡ true)
        × (o.password ≡ none)
        × ((k : Bytes) × (o.private_key_base64 ≡ some (base64_encode k)) × IsPrivateKey vm k))

pub record IsComplete (vm : ConnectFormVm) (o : SaveOutcome) : Type 0 where
  pub host_given : (o.host ≡ normalized_host vm.host_text) × (¬ (o.host ≡ []))
  pub port_given :
      (normalized_port vm.host_text vm.port_text ≡ some o.port) × (1 ≤ o.port) × (o.port ≤ 65535)
  pub username_given : (o.username ≡ trim vm.username_text) × (¬ (o.username ≡ []))
  pub kind : o.auth_is_key ≡ vm.is_using_key
  pub secret : HasOneSecret vm o

is_empty_ne {ℓ} : {A : Type ℓ} (xs : List A) → is_empty xs ≡ false → ¬ (xs ≡ [])
is_empty_ne xs h e = ground (arith, e)

-- What `validate` accepts.
record IsValid (vm : ConnectFormVm) (p : ℕ) : Type 0 where
  has_host : is_empty (normalized_host vm.host_text) ≡ false
  has_user : is_empty (trim vm.username_text) ≡ false
  has_port : normalized_port vm.host_text vm.port_text ≡ some p
  port_low : 1 ≤ p
  port_high : p ≤ 65535
  not_lacking : lacks_secret vm ≡ false

port_fits-some :
    (o : Option ℕ) → port_fits o ≡ true → (p : ℕ) × (o ≡ some p) × (1 ≤ p) × (p ≤ 65535)
port_fits-some none h = cc
port_fits-some (some p) h = (p, refl, ground arith, ground arith)

validate-IsValid : (l : L10n) (vm : ConnectFormVm) → validate l vm ≡ none → (p : ℕ) × IsValid vm p
validate-IsValid l vm h =
    let f : port_fits (normalized_port vm.host_text vm.port_text) ≡ true =
      unfold validate in ground arith in
    let (p, e, lo, hi) = port_fits-some _ f in
    (
      p,
      record {
        has_host = unfold validate in ground arith;
        has_user = unfold validate in ground arith;
        has_port = e;
        port_low = lo;
        port_high = hi;
        not_lacking = unfold validate in ground arith;
      },
    )

resolve_password-IsPassword :
    (vm : ConnectFormVm)
    → vm.is_using_key ≡ false
    → lacks_secret vm ≡ false
    → (p : Text) × (resolve_password vm ≡ some p) × IsPassword vm p
unfolding resolve_password lacks_secret requires_fresh_secret or_typed
resolve_password-IsPassword vm k h =
    elim (Bool-cases
      (switched_auth vm || (vm.password_touched || not (preserve_password vm.mode)))) [
        | inl e ↦ (
          vm.password_text,
          ground (arith, k, e),
          inl (refl, is_empty_ne vm.password_text (ground arith)),
        )
        | inr e ↦ elim (Option-cases (stored_password vm.mode)) [
          | inl n ↦ absurd (ground (arith, n))
          | inr (p, m) ↦ (p, ground (arith, k, e, m), inr (ground arith, m))
        ]
      ]

resolve_private_key-IsPrivateKey :
    (vm : ConnectFormVm)
    → vm.is_using_key ≡ true
    → lacks_secret vm ≡ false
    → (p : Bytes) × (resolve_private_key vm ≡ some p) × IsPrivateKey vm p
unfolding resolve_private_key lacks_secret requires_fresh_secret or_typed
resolve_private_key-IsPrivateKey vm k h =
    elim (Bool-cases (switched_auth vm || (vm.private_key_touched || not (preserve_key vm.mode)))) [
      | inl e ↦ (
        vm.private_key,
        ground (arith, k, e),
        inl (refl, is_empty_ne vm.private_key (ground arith)),
      )
      | inr e ↦ elim (Option-cases (stored_private_key vm.mode)) [
        | inl n ↦ absurd (ground (arith, n))
        | inr (p, m) ↦ (p, ground (arith, k, e, m), inr (ground arith, m))
      ]
    ]

outcome-HasOneSecret :
    (vm : ConnectFormVm) (fresh : Text) (port : ℕ)
    → lacks_secret vm ≡ false
    → HasOneSecret vm (outcome vm fresh port)
unfolding outcome resolve_secrets
outcome-HasOneSecret vm fresh port h = elim (Bool-cases vm.is_using_key) [
  | inl k ↦
      let (key, e, w) = resolve_private_key-IsPrivateKey vm k h in
      inr (k, rw k refl, (key, ground (arith, k, e), w))
  | inr k ↦
      let (p, e, w) = resolve_password-IsPassword vm k h in
      inl (k, rw k refl, rw k refl, (p, ground (arith, k, e), w))
]

outcome-IsComplete :
    (vm : ConnectFormVm) (fresh : Text) (port : ℕ)
    → IsValid vm port
    → IsComplete vm (outcome vm fresh port)
outcome-IsComplete vm fresh port v =
    let one = outcome-HasOneSecret vm fresh port v.not_lacking in
    unfold outcome in
    record {
      host_given = (refl, is_empty_ne (normalized_host vm.host_text) v.has_host);
      port_given = (v.has_port, v.port_low, v.port_high);
      username_given = (refl, is_empty_ne (trim vm.username_text) v.has_user);
      kind = refl;
      secret = one;
    }

-- A save either meets an error of the validation, which it shows and answers, or clears the
-- message and answers an entry: with the host as normalised and not empty, the port of the text
-- within 1 and 65535, the trimmed user name, which is not empty, the kind of authentication that
-- is chosen, and the secret of that kind alone, typed or kept from the entry that is edited.
pub try_save-cases :
    (l : L10n) (nanos bump : ℕ) (vm : ConnectFormVm)
    → let r = try_save l nanos bump vm in
      ((err : Text) × (validate l vm ≡ some err)
        × (r.0 ≡ record vm { error_message = some err })
        × (r.1 ≡ refused err))
      ⊎ ((o : SaveOutcome) × (validate l vm ≡ none)
          × (r.0 ≡ record vm { error_message = none })
          × (r.1 ≡ saved o)
          × IsComplete vm o)
unfolding try_save save_valid save_with
try_save-cases l nanos bump vm = elim (Option-cases (validate l vm)) [
  | inl e ↦
      let (p, v) = validate-IsValid l vm e in
      inr (
        outcome vm (uuid_v4 nanos bump) p,
        e,
        rw (e, v.has_port) refl,
        rw (e, v.has_port) refl,
        outcome-IsComplete vm (uuid_v4 nanos bump) p v,
      )
  | inr (err, e) ↦ inl (err, e, rw e refl, rw e refl)
]
