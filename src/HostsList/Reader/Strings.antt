-- ===== src/HostsList/Reader/Strings.antt =====
-- How `parse_string` of rust-core/bedterm-ios/src/hosts/model.rs goes through a text.
use bed_term.Prelude.{
  ℕ, ◌≤◌, ◌≡◌, refl, ap, ◌∙◌, false, ◌||◌, [], ◌∷◌, ◌++◌, append-nil, append_assoc, arith, ◌==◌,
  if◌then◌else◌, Forall,
}
use bed_term.Prelude.Text.{Text, is_ascii_whitespace}
use bed_term.HostsList.Reader.{parse_field, parse_member, read_member}
use bed_term.HostsList.{
  HostListEntry, parsed, panicked, skip_ws, unescape, string_loop, parse_string,
}

-- A character that stands for itself within a string.
abbrev pub IsPlainChar : ℕ → Type 0
IsPlainChar c = ((c == b'"') ≡ false) × ((c == b'\\') ≡ false)

pub string_loop_plain :
    (out : Text) (c : ℕ) (xs : Text)
    → ¬ (xs ≡ [])
    → IsPlainChar c
    → string_loop out (c ∷ xs) ≡ string_loop (out ++ (c ∷ [])) xs
unfolding string_loop
string_loop_plain out c [] n h = absurd (n refl)
string_loop_plain out c (x ∷ xs) n h = rw (h.0, h.1) refl

pub somewhere_ne : (xs : Text) (y : ℕ) (ys : Text) → ¬ (xs ++ (y ∷ ys) ≡ [])
somewhere_ne [] y ys h = cc
somewhere_ne (x ∷ xs) y ys h = cc

string_loop_panics :
    (out s rest : Text) (c : ℕ)
    → Forall IsPlainChar s
    → 128 ≤ c
    → string_loop out (s ++ (b'\\' ∷ c ∷ rest)) ≡ panicked
string_loop_panics out [] rest c h k = unfold string_loop in ground arith
string_loop_panics out (x ∷ s) rest c h k =
    string_loop_plain out x (s ++ (b'\\' ∷ c ∷ rest)) (somewhere_ne s b'\\' (c ∷ rest)) h.0
    ∙ string_loop_panics (out ++ (x ∷ [])) s rest c h.1 k

pub parse_string_panics :
    (s rest : Text) (c : ℕ)
    → Forall IsPlainChar s
    → 128 ≤ c
    → parse_string (b'"' ∷ (s ++ (b'\\' ∷ c ∷ rest))) ≡ panicked
unfolding parse_string
parse_string_panics s rest c h k = string_loop_panics [] s rest c h k

-- A character of a JSON string: a quote, a backslash, a line feed, a carriage return and a tab are
-- escaped.
unfoldable pub escaped_char : ℕ → Text
escaped_char c =
    if c == 10
    then b'\\' ∷ b'n' ∷ []
    else if c == 13
    then b'\\' ∷ b'r' ∷ []
    else if c == 9
    then b'\\' ∷ b't' ∷ []
    else if c == b'"' || c == b'\\'
    then b'\\' ∷ c ∷ []
    else c ∷ []

unfoldable pub escaped_text : Text → Text
escaped_text [] = []
escaped_text (c ∷ cs) = escaped_char c ++ escaped_text cs

unfoldable pub quote : Text → Text
quote s = b'"' ∷ (escaped_text s ++ (b'"' ∷ []))

string_loop_end : (out rest : Text) → string_loop out (b'"' ∷ rest) ≡ parsed out rest
unfolding string_loop
string_loop_end out [] = refl
string_loop_end out (c ∷ rest) = refl

string_loop-escaped_char :
    (out : Text) (c : ℕ) (xs : Text)
    → ¬ (xs ≡ [])
    → string_loop out (escaped_char c ++ xs) ≡ string_loop (out ++ (c ∷ [])) xs
unfolding string_loop unescape escaped_char
string_loop-escaped_char out c [] n = absurd (n refl)
string_loop-escaped_char out c (x ∷ xs) n = ground arith

string_loop-escaped_text :
    (out s rest : Text) → string_loop out (escaped_text s ++ (b'"' ∷ rest)) ≡ parsed (out ++ s) rest
unfolding escaped_text
string_loop-escaped_text out [] rest = string_loop_end out rest ∙ rw append-nil refl
string_loop-escaped_text out (c ∷ cs) rest =
    let xs = escaped_text cs ++ (b'"' ∷ rest) in
    ap (string_loop out) (append_assoc (escaped_char c) (escaped_text cs) (b'"' ∷ rest))
    ∙ string_loop-escaped_char out c xs (somewhere_ne (escaped_text cs) b'"' rest)
    ∙ string_loop-escaped_text (out ++ (c ∷ [])) cs rest
    ∙ ap (λ (t : Text). parsed t rest) (append_assoc out (c ∷ []) cs)

-- `parse_string` reads back what is quoted, and leaves what follows.
pub parse_string-quote : (s rest : Text) → parse_string (quote s ++ rest) ≡ parsed s rest
unfolding parse_string quote
parse_string-quote s rest =
    ap (string_loop []) (append_assoc (escaped_text s) (b'"' ∷ []) rest)
    ∙ string_loop-escaped_text [] s rest

pub skip_ws_stops : (c : ℕ) (cs : Text) → is_ascii_whitespace c ≡ false → skip_ws (c ∷ cs) ≡ c ∷ cs
unfolding skip_ws
skip_ws_stops c cs h = rw h refl

parse_member_colon :
    (e : HostListEntry) (key rest : Text)
    → parse_member e key (skip_ws (b':' ∷ rest)) ≡ parse_field e key (skip_ws rest)
parse_member_colon e key rest =
    ap (parse_member e key) (skip_ws_stops b':' rest refl) ∙ (unfold parse_member in refl)

-- A member of which the key is read.
pub read_member-quote :
    (e : HostListEntry) (key rest : Text)
    → read_member e (quote key ++ (b':' ∷ rest)) ≡ parse_field e key (skip_ws rest)
unfolding read_member
read_member-quote e key rest =
    rw (parse_string-quote key (b':' ∷ rest)) (parse_member_colon e key rest)
