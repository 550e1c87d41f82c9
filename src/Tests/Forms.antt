-- ===== src/Tests/Forms.antt =====
-- connect_form_vm.rs and connect_form/model.rs at concrete forms.
use bed_term.Prelude.{ℕ, ◌≡◌, refl, ◌⊎◌, inr, true, false, none, some, [], ◌∷◌, ◌++◌, arith}
use bed_term.Prelude.Text.{codes, Text}
use bed_term.L10n.{L10n}
use bed_term.ConnectForm.Base64.{sextet_char, base64_encode, panics, decoded, base64_decode}
use bed_term.ConnectForm.Base64.RoundTrip.{base64_decode-base64_encode}
use bed_term.ConnectForm.Base64.Pads.{base64_decode-pads}
use bed_term.ConnectForm.Address.{
  is_whitespace, trim_start, trim_end, trim, parse_u16, colon_count, in_brackets, one_colon,
  normalized_host, colon_port, normalized_port,
}
use bed_term.ConnectForm.Address.Paste.{normalized_agree}
use bed_term.ConnectForm.Vm.{add, SaveOutcome, new, Prefill, prefill_edit, set_using_key, validate}
use bed_term.ConnectForm.Vm.Submit.{resolve_secrets, saved, refused, try_save}
use bed_term.ConnectForm.Vm.Save.{IsComplete, try_save-cases}
use bed_term.ConnectForm.Vm.Edit.{
  IsStored, entry_of, try_save-prefill_edit, resolve_secrets_switched,
}

base64_decode-base64_encode_example :
    base64_decode (base64_encode (77 ∷ 0 ∷ 255 ∷ 110 ∷ [])) ≡ decoded (77 ∷ 0 ∷ 255 ∷ 110 ∷ [])
base64_decode-base64_encode_example =
    base64_decode-base64_encode (77 ∷ 0 ∷ 255 ∷ 110 ∷ []) (omega arith)

encodes_man : base64_encode (codes "Man is") ≡ codes "TWFuIGlz"
unfolding base64_encode sextet_char
encodes_man = refl

base64_decode-pads_example : base64_decode (codes "====") ≡ panics
base64_decode-pads_example = base64_decode-pads 0

normalized_agree_example :
    ((normalized_host (codes "pi:x") ≡ trim (codes "pi:x"))
      × (normalized_port (codes "pi:x") (codes "22") ≡ parse_u16 (trim (codes "22"))))
    ⊎ ((tail : Text) × (p : ℕ) × (trim (codes "pi:x")
          ≡ normalized_host (codes "pi:x") ++ (b':' ∷ tail))
        × (parse_u16 tail ≡ some p)
        × (normalized_port (codes "pi:x") (codes "22") ≡ some p))
normalized_agree_example =
    normalized_agree (codes "pi:x") (codes "22")
      (unfold in_brackets trim trim_start trim_end is_whitespace in refl)

abbrev english : L10n
english = record { tables = []; locale = [] }

-- A host of which the password is stored, and is not typed again.
abbrev stored : Prefill
stored = record {
  entry_id = codes "id";
  entry_label = codes "box";
  entry_host = codes "pi";
  entry_port = 22;
  entry_username = codes "yi";
  entry_is_key = false;
  existing_password = some (codes "secret");
  existing_private_key = none;
  existing_passphrase = none;
}

stored-IsStored : IsStored stored
stored-IsStored = record {
  host_plain = record {
    tight = unfold trim trim_start trim_end is_whitespace in refl;
    no_brackets = unfold in_brackets in refl;
    no_port = unfold colon_port one_colon colon_count in refl;
    given = refl;
  };
  port_low = omega arith;
  port_high = omega arith;
  label_tight = unfold trim trim_start trim_end is_whitespace in refl;
  username_tight = unfold trim trim_start trim_end is_whitespace in refl;
  username_given = refl;
  secret = inr (refl, (codes "secret", refl));
}

try_save-prefill_edit_example :
    try_save english 5 0 (prefill_edit new stored)
    ≡ (prefill_edit new stored, saved (entry_of stored))
try_save-prefill_edit_example = try_save-prefill_edit english 5 0 new stored stored-IsStored

try_save-cases_example :
    let r = try_save english 5 0 new in
    ((err : Text) × (validate english new ≡ some err)
      × (r.0 ≡ record new { error_message = some err })
      × (r.1 ≡ refused err))
    ⊎ ((o : SaveOutcome) × (validate english new ≡ none)
        × (r.0 ≡ record new { error_message = none })
        × (r.1 ≡ saved o)
        × IsComplete new o)
try_save-cases_example = try_save-cases english 5 0 new

-- The stored password belongs to the other kind.
resolve_secrets_switched_example :
    let vm = set_using_key (prefill_edit new stored) true in
    resolve_secrets vm ≡ resolve_secrets (record vm { mode = add })
resolve_secrets_switched_example =
    resolve_secrets_switched (set_using_key (prefill_edit new stored) true)
      (unfold set_using_key prefill_edit in refl)
