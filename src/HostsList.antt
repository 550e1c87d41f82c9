-- ===== src/HostsList.antt =====
-- rust-core/bedterm-ios/src/hosts/model.rs: a row of the list of hosts, and the reader of the JSON that
-- Swift hands over. A text is the list of its characters: the source's byte offsets stand where a
-- character begins, except behind an escaped character that is not ASCII, where it panics.
pub mod Reader
use bed_term.Dcs.Json.{parse_i64, negated}
use bed_term.Prelude.{
  ℕ, ◌-◌, ◌%◌, Bool, true, false, not, ◌&&◌, ◌||◌, Option, none, some, [], ◌∷◌, ◌++◌, ltb, ◌==◌,
  if◌then◌else◌,
}
use bed_term.Prelude.Int.{ℤ, pos, negsuc}
use bed_term.Prelude.Text.{codes, Text, is_empty, is_ascii_whitespace}
use bed_term.Prelude.Decimal.{is_ascii_digit, print_ℕ}
use bed_term.ConnectForm.Address.{trim}

pub record HostListEntry : Type 0 where
  pub id : Text
  pub label : Text
  pub host : Text
  pub port : ℕ
  pub username : Text
  pub auth_is_key : Bool

-- `contains(':')`.
unfoldable pub has_colon : Text → Bool
has_colon [] = false
has_colon (c ∷ cs) = c == b':' || has_colon cs

abbrev starts_bracket : Text → Bool
starts_bracket [] = false
starts_bracket (c ∷ cs) = c == b'['

unfoldable pub formatted_host : Text → Text
formatted_host host =
    if has_colon host && not (starts_bracket host) then b'[' ∷ (host ++ (b']' ∷ [])) else host

-- `format!("{}@{}", self.username, formatted_host(&self.host))`.
user_at_host : HostListEntry → Text
unfolding formatted_host
user_at_host e = e.username ++ (b'@' ∷ formatted_host e.host)

unfoldable pub primary_label : HostListEntry → Text
unfolding user_at_host
primary_label e = if is_empty e.label then user_at_host e else e.label

unfoldable pub subtitle : HostListEntry → Option Text
unfolding user_at_host
subtitle e =
    if is_empty e.label && e.port == 22
    then none
    else if e.port == 22
    then some (user_at_host e)
    else some (user_at_host e ++ (b':' ∷ print_ℕ e.port))

-- The result of a reader: a value and the rest of the text, `None`, a panic, or no more fuel.
pub data Outcome {ℓ} (A : Type ℓ) : Type ℓ where
  parsed : A → Text → Outcome A
  failed : Outcome A
  panicked : Outcome A
  exhausted : Outcome A

-- `?`.
abbrev pub and_then {ℓ κ} :
    {A : Type ℓ} {B : Type κ} → Outcome A → (A → Text → Outcome B) → Outcome B
and_then (parsed a rest) f = f a rest
and_then failed f = failed
and_then panicked f = panicked
and_then exhausted f = exhausted

unfoldable pub skip_ws : Text → Text
skip_ws [] = []
skip_ws (c ∷ cs) = let later = skip_ws cs in if is_ascii_whitespace c then later else c ∷ cs

-- The ASCII character that stands behind a backslash, as the one it is for.
unfoldable pub unescape : ℕ → ℕ
unescape n = if n == b'n' then 10 else if n == b't' then 9 else if n == b'r' then 13 else n

-- The loop of `parse_string`. A character that is not ASCII is left in its middle when it is escaped,
-- so that the next slice of the text panics.
unfoldable pub string_loop : Text → Text → Outcome Text
string_loop out [] = failed
string_loop out (c ∷ []) = if c == b'"' then parsed out [] else failed
string_loop out (c ∷ n ∷ rest) =
    let escaped = string_loop (out ++ (unescape n ∷ [])) rest in
    let plain = string_loop (out ++ (c ∷ [])) (n ∷ rest) in
    if c == b'\\'
    then if ltb n 0x80 then escaped else panicked
    else if c == b'"'
    then parsed out (n ∷ rest)
    else plain

unfoldable pub parse_string : Text → Outcome Text
parse_string [] = failed
parse_string (c ∷ cs) = if c == b'"' then string_loop [] cs else failed

-- The digits at the beginning, and what stands behind them.
unfoldable pub span_digits : Text → Text × Text
span_digits [] = ([], [])
span_digits (c ∷ cs) =
    let later = span_digits cs in if is_ascii_digit c then (c ∷ later.0, later.1) else ([], c ∷ cs)

-- `parse::<i64>().ok()` of digits, with a sign before them.
signed_of : Bool → Option ℕ → Text → Outcome ℤ
signed_of neg none rest = failed
signed_of neg (some n) rest = parsed (if neg then negated n else pos n) rest

number_of : Bool → Text × Text → Outcome ℤ
unfolding signed_of
number_of neg s = signed_of neg (parse_i64 s.0) s.1

unfoldable pub parse_number : Text → Outcome ℤ
unfolding number_of
parse_number [] = failed
parse_number (c ∷ cs) =
    if c == b'-' then number_of true (span_digits cs) else number_of false (span_digits (c ∷ cs))

-- `v as u16`.
unfoldable pub as_u16 : ℤ → ℕ
as_u16 (pos n) = n % 65536
as_u16 (negsuc n) = 65535 - n % 65536

-- What is left behind the prefix `p`.
unfoldable pub strip_prefix : Text → Text → Option Text
strip_prefix [] s = some s
strip_prefix (x ∷ p) [] = none
strip_prefix (x ∷ p) (c ∷ cs) = let later = strip_prefix p cs in if x == c then later else none

unfoldable pub parse_bool : Text → Outcome Bool
parse_bool s = elim (strip_prefix (codes "true") s) [
  | some rest ↦ parsed true rest
  | none ↦ elim (strip_prefix (codes "false") s) [ some rest ↦ parsed false rest | none ↦ failed ]
]

-- The string branch of `skip_value`, behind the opening quote.
unfoldable pub skip_string : Text → Outcome (Unit {0})
skip_string [] = failed
skip_string (c ∷ []) = if c == b'"' then parsed tt [] else failed
skip_string (c ∷ n ∷ rest) =
    let escaped = skip_string rest in
    let plain = skip_string (n ∷ rest) in
    if c == b'\\' then escaped else if c == b'"' then parsed tt (n ∷ rest) else plain

abbrev ends_token : ℕ → Bool
ends_token c = c == b',' || c == b'}' || c == b']' || is_ascii_whitespace c

unfoldable pub skip_token : Text → Text
skip_token [] = []
skip_token (c ∷ cs) = let later = skip_token cs in if ends_token c then c ∷ cs else later

abbrev starts_token : ℕ → Bool
starts_token c = c == b't' || c == b'f' || c == b'n' || c == b'-' || is_ascii_digit c

unfoldable pub skip_value : Text → Outcome (Unit {0})
unfolding is_ascii_digit
skip_value [] = failed
skip_value (c ∷ cs) =
    if c == b'"'
    then skip_string cs
    else if starts_token c
    then parsed tt (skip_token (c ∷ cs))
    else failed
