-- ===== src/HostsList/Reader/Written.antt =====
-- The JSON of a list of hosts, as the comment at `parse_entries_json` of
-- rust-core/bedterm-ios/src/hosts/model.rs gives it, and that its members are read back.
use bed_term.Prelude.{
  ℕ, ◌%◌, ◌<◌, ◌≡◌, refl, sym, ap, subst, ◌∙◌, Bool, true, false, some, List, [], ◌∷◌, ◌++◌, arith,
  ◌==◌, Forall,
}
use bed_term.Prelude.Int.{pos}
use bed_term.Prelude.Text.{codes, text_eq, Text, is_ascii_whitespace}
use bed_term.Prelude.Decimal.{is_ascii_digit, print_ℕ, IsDigit}
use bed_term.Dcs.Json.{parse_i64}
use bed_term.Dcs.Json.Decimal.{parse_i64-print_ℕ}
use bed_term.ConnectForm.Address.Trim.{print_ℕ-IsDigit, print_ℕ_cons}
use bed_term.HostsList.{
  HostListEntry, parsed, skip_ws, span_digits, signed_of, number_of, parse_number, as_u16,
  strip_prefix, parse_bool,
}
use bed_term.HostsList.Reader.{text_field, parse_field}
use bed_term.HostsList.Reader.Strings.{escaped_text, quote, parse_string-quote, skip_ws_stops}

unfoldable pub write_bool : Bool → Text
write_bool true = codes "true"
write_bool false = codes "false"

-- A member, and what follows it.
unfoldable pub member : Text → Text → Text → Text
member key value rest = quote key ++ (b':' ∷ (value ++ rest))

unfoldable pub write_entry : HostListEntry → Text → Text
write_entry e rest =
    b'{'
    ∷ member (codes "id") (quote e.id) (
        b','
        ∷ member (codes "label") (quote e.label) (
            b','
            ∷ member (codes "host") (quote e.host) (
                b','
                ∷ member (codes "port") (print_ℕ e.port) (
                    b','
                    ∷ member (codes "username") (quote e.username) (
                        b','
                        ∷ member (codes "authIsKey") (write_bool e.auth_is_key) (b'}' ∷ rest))))))

unfoldable pub write_more : List HostListEntry → Text
write_more [] = b']' ∷ []
write_more (e ∷ es) = b',' ∷ write_entry e (write_more es)

unfoldable pub write_entries : List HostListEntry → Text
write_entries [] = codes "[]"
write_entries (e ∷ es) = b'[' ∷ write_entry e (write_more es)

pub skip_ws-quote : (s rest : Text) → skip_ws (quote s ++ rest) ≡ quote s ++ rest
unfolding quote
skip_ws-quote s rest = skip_ws_stops b'"' ((escaped_text s ++ (b'"' ∷ [])) ++ rest) refl

text_field-quote :
    (set : Text → HostListEntry) (s rest : Text)
    → text_field set (skip_ws (quote s ++ rest)) ≡ parsed (set s) rest
text_field-quote set s rest =
    rw (skip_ws-quote s rest) (unfold text_field in rw (parse_string-quote s rest) refl)

pub id_field :
    (e : HostListEntry) (s rest : Text)
    → parse_field e (codes "id") (skip_ws (quote s ++ rest)) ≡ parsed (record e { id = s }) rest
unfolding parse_field text_eq
id_field e s rest = text_field-quote (λ v. record e { id = v }) s rest

pub label_field :
    (e : HostListEntry) (s rest : Text)
    → parse_field e (codes "label") (skip_ws (quote s ++ rest))
      ≡ parsed (record e { label = s }) rest
unfolding parse_field text_eq
label_field e s rest = text_field-quote (λ v. record e { label = v }) s rest

pub host_field :
    (e : HostListEntry) (s rest : Text)
    → parse_field e (codes "host") (skip_ws (quote s ++ rest)) ≡ parsed (record e { host = s }) rest
unfolding parse_field text_eq
host_field e s rest = text_field-quote (λ v. record e { host = v }) s rest

pub username_field :
    (e : HostListEntry) (s rest : Text)
    → parse_field e (codes "username") (skip_ws (quote s ++ rest))
      ≡ parsed (record e { username = s }) rest
unfolding parse_field text_eq
username_field e s rest = text_field-quote (λ v. record e { username = v }) s rest

pub auth_field :
    (e : HostListEntry) (b : Bool) (rest : Text)
    → parse_field e (codes "authIsKey") (skip_ws (write_bool b ++ rest))
      ≡ parsed (record e { auth_is_key = b }) rest
unfolding parse_field text_eq write_bool skip_ws parse_bool strip_prefix
auth_field e true rest = refl
auth_field e false rest = refl

span_digits-append :
    (ds rest : Text) (c : ℕ)
    → Forall IsDigit ds
    → is_ascii_digit c ≡ false
    → span_digits (ds ++ (c ∷ rest)) ≡ (ds, c ∷ rest)
unfolding span_digits
span_digits-append [] rest c h k = rw k refl
span_digits-append (d ∷ ds) rest c h k =
    rw (span_digits-append ds rest c h.1 k, digit_is d h.0) refl
  where
    digit_is : (d : ℕ) → IsDigit d → is_ascii_digit d ≡ true
    digit_is d h = unfold is_ascii_digit in ground arith

parse_number-digits :
    (d n c : ℕ) (ds rest : Text)
    → Forall IsDigit (d ∷ ds)
    → is_ascii_digit c ≡ false
    → parse_i64 (d ∷ ds) ≡ some n
    → parse_number (skip_ws ((d ∷ ds) ++ (c ∷ rest))) ≡ parsed (pos n) (c ∷ rest)
unfolding parse_number number_of signed_of
parse_number-digits d n c ds rest h k p =
    let no_minus : (d == b'-') ≡ false = ground (arith, h.0) in
    let no_space : is_ascii_whitespace d ≡ false = ground (arith, h.0) in
    ap parse_number (skip_ws_stops d (ds ++ (c ∷ rest)) no_space)
    ∙ rw (no_minus, span_digits-append (d ∷ ds) rest c h k, p) refl

pub parse_number-print_ℕ :
    (n c : ℕ) (rest : Text)
    → n < 65536
    → is_ascii_digit c ≡ false
    → parse_number (skip_ws (print_ℕ n ++ (c ∷ rest))) ≡ parsed (pos n) (c ∷ rest)
parse_number-print_ℕ n c rest h k =
    let (d, ds, e) = print_ℕ_cons n in
    subst (λ (t : Text). parse_number (skip_ws (t ++ (c ∷ rest))) ≡ parsed (pos n) (c ∷ rest))
      (sym e)
      (parse_number-digits d n c ds rest (subst (Forall IsDigit) e (print_ℕ-IsDigit n)) k
        (subst (λ (t : Text). parse_i64 t ≡ some n) e (parse_i64-print_ℕ n (omega arith))))

pub port_field :
    (e : HostListEntry) (p c : ℕ) (rest : Text)
    → p < 65536
    → is_ascii_digit c ≡ false
    → parse_field e (codes "port") (skip_ws (print_ℕ p ++ (c ∷ rest)))
      ≡ parsed (record e { port = p }) (c ∷ rest)
unfolding parse_field text_eq as_u16
port_field e p c rest h k =
    let wrap : p % 65536 ≡ p = omega arith in rw (parse_number-print_ℕ p c rest h k, wrap) refl
