-- ===== src/ConnectForm/Address.antt =====
-- `normalized_host` and `normalized_port` of rust-core/bedterm-ios/src/connect_form/model.rs, with
-- `str::trim` and `str::parse::<u16>` of Rust's standard library. A text is the list of its
-- characters; the source's byte offsets stand where a character begins.
pub mod Trim
pub mod Paste
use bed_term.Prelude.{
  ℕ, suc, ◌^◌, Bool, true, ◌&&◌, ◌||◌, Option, none, some, [], ◌∷◌, ltb, leb, ◌==◌, if◌then◌else◌,
  ◌>>=◌, is_some,
}
use bed_term.Prelude.Text.{Text, is_empty}
use bed_term.Prelude.Decimal.{is_ascii_digit, digits_value}

-- `char::is_whitespace`.
unfoldable pub is_whitespace : ℕ → Bool
is_whitespace c =
    (leb 9 c && leb c 13)
    || (c == 0x20 || c == 0x85 || c == 0xA0 || c == 0x1680)
    || (leb 0x2000 c && leb c 0x200A)
    || (c == 0x2028 || c == 0x2029 || c == 0x202F || c == 0x205F || c == 0x3000)

unfoldable pub trim_start : Text → Text
trim_start [] = []
trim_start (c ∷ cs) = let later = trim_start cs in if is_whitespace c then later else c ∷ cs

unfoldable pub trim_end : Text → Text
trim_end [] = []
trim_end (c ∷ cs) =
    let later = trim_end cs in if is_whitespace c && is_empty later then [] else c ∷ later

unfoldable pub trim : Text → Text
trim s = trim_end (trim_start s)

unfoldable pub all_digits : Text → Bool
all_digits [] = true
all_digits (c ∷ cs) = is_ascii_digit c && all_digits cs

u16_of : Text → Option ℕ
unfolding all_digits digits_value
u16_of [] = none
u16_of (c ∷ cs) =
    let n = digits_value 0 (c ∷ cs) in
    if all_digits (c ∷ cs) && ltb n (2 ^ 16) then some n else none

-- `parse::<u16>().ok()`: an optional `+`, then digits, and a value that fits.
unfoldable pub parse_u16 : Text → Option ℕ
unfolding u16_of
parse_u16 [] = none
parse_u16 (c ∷ cs) = if c == b'+' then u16_of cs else u16_of (c ∷ cs)

-- What stands before and after the first `x`.
unfoldable pub split_first : ℕ → Text → Option (Text × Text)
split_first x [] = none
split_first x (c ∷ cs) =
    let later = split_first x cs >>= λ (p : Text × Text). some (c ∷ p.0, p.1) in
    if c == x then some ([], cs) else later

-- What stands before and after the last `x`.
unfoldable pub split_last : ℕ → Text → Option (Text × Text)
split_last x [] = none
split_last x (c ∷ cs) = elim (split_last x cs) [
  | some p ↦ some (c ∷ p.0, p.1)
  | none ↦ if c == x then some ([], cs) else none
]

-- `chars().filter(|&c| c == ':').count()`.
unfoldable pub colon_count : Text → ℕ
colon_count [] = 0
colon_count (c ∷ cs) = let n = colon_count cs in if c == b':' then suc n else n

-- `strip_prefix('[')`, then `find(']')`: what stands in the brackets and behind them.
unfoldable pub in_brackets : Text → Option (Text × Text)
in_brackets [] = none
in_brackets (c ∷ cs) = if c == b'[' then split_first b']' cs else none

-- `strip_prefix(':')`.
unfoldable pub after_colon : Text → Option Text
after_colon [] = none
after_colon (c ∷ cs) = if c == b':' then some cs else none

unfoldable pub one_colon : Text → Option (Text × Text)
one_colon s = if colon_count s == 1 then split_last b':' s else none

bare_host : Text → Text
unfolding one_colon
bare_host s = elim (one_colon s) [ some p ↦ if is_some (parse_u16 p.1) then p.0 else s | none ↦ s ]

-- `normalized_host` of a text that is trimmed. The source returns early where it is empty.
unfoldable pub host_of : Text → Text
unfolding bare_host
host_of s = elim (in_brackets s) [
  | some p ↦ if is_some (after_colon p.1) then p.0 else s
  | none ↦ bare_host s
]

unfoldable pub normalized_host : Text → Text
normalized_host raw = host_of (trim raw)

unfoldable pub bracket_port : Text → Option ℕ
bracket_port s = in_brackets s >>= λ (p : Text × Text). after_colon p.1 >>= parse_u16

unfoldable pub colon_port : Text → Option ℕ
unfolding one_colon
colon_port s = one_colon s >>= λ (p : Text × Text). parse_u16 p.1

or_else {ℓ} : {A : Type ℓ} → Option A → Option A → Option A
or_else (some a) o = some a
or_else none o = o

-- The port within the text for the host.
unfoldable pub pasted_port : Text → Option ℕ
unfolding or_else
pasted_port s = or_else (bracket_port s) (colon_port s)

unfoldable pub normalized_port : Text → Text → Option ℕ
unfolding or_else
normalized_port host_raw port_raw =
    or_else (pasted_port (trim host_raw)) (parse_u16 (trim port_raw))
