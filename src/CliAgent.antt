-- ===== src/CliAgent.antt =====
-- rust-core/bedterm-core/src/cli_agent.rs: which CLI agent a command line starts. A `&str` is the
-- list of its characters here.
pub mod Tokens
pub mod Detect
use bed_term.Prelude.Decimal.{is_ascii_digit}
use bed_term.Prelude.{
  ℕ, Bool, true, false, ◌&&◌, ◌||◌, Option, none, some, List, [], ◌∷◌, ◌++◌, leb, ◌==◌,
  if◌then◌else◌,
}
use bed_term.Prelude.Text.{codes, text_eq}

pub data CliAgent : Type 0 where
  claude gemini codex amp droid open_code copilot pi auggie cursor_cli goose hermes vibe : CliAgent

unfoldable pub command_prefix : CliAgent → List ℕ
command_prefix claude = codes "claude"
command_prefix gemini = codes "gemini"
command_prefix codex = codes "codex"
command_prefix amp = codes "amp"
command_prefix droid = codes "droid"
command_prefix open_code = codes "opencode"
command_prefix copilot = codes "copilot"
command_prefix pi = codes "pi"
command_prefix auggie = codes "auggie"
command_prefix cursor_cli = codes "agent"
command_prefix goose = codes "goose"
command_prefix hermes = codes "hermes"
command_prefix vibe = codes "vibe"

pub ffi_tag : CliAgent → ℕ
ffi_tag claude = 1
ffi_tag gemini = 2
ffi_tag codex = 3
ffi_tag amp = 4
ffi_tag droid = 5
ffi_tag open_code = 6
ffi_tag copilot = 7
ffi_tag pi = 8
ffi_tag auggie = 9
ffi_tag cursor_cli = 10
ffi_tag goose = 11
ffi_tag hermes = 12
ffi_tag vibe = 13

all : List CliAgent
all =
    claude ∷ gemini ∷ codex ∷ amp ∷ droid ∷ open_code ∷ copilot ∷ pi ∷ auggie ∷ cursor_cli ∷ goose
    ∷ hermes ∷ vibe ∷ []

-- `char::is_whitespace`: the property White_Space.
unfoldable pub is_whitespace : ℕ → Bool
is_whitespace c =
    (leb 0x09 c && leb c 0x0D)
    || c == 0x20
    || c == 0x85
    || c == 0xA0
    || c == 0x1680
    || (leb 0x2000 c && leb c 0x200A)
    || c == 0x2028
    || c == 0x2029
    || c == 0x202F
    || c == 0x205F
    || c == 0x3000

-- The word read so far, before the later ones, if it is one.
push_word : List ℕ → List (List ℕ) → List (List ℕ)
push_word [] later = later
push_word (c ∷ cs) later = (c ∷ cs) ∷ later

-- `split_whitespace`, with the word read so far.
split_from : List ℕ → List ℕ → List (List ℕ)
unfolding push_word
split_from word [] = push_word word []
split_from word (c ∷ cs) =
    let later = split_from (if is_whitespace c then [] else word ++ c ∷ []) cs in
    if is_whitespace c then push_word word later else later

pub split_whitespace : List ℕ → List (List ℕ)
unfolding split_from
split_whitespace = split_from []

is_ascii_uppercase : ℕ → Bool
is_ascii_uppercase c = leb b'A' c && leb c b'Z'

-- The loop over the characters behind the first.
assigns : List ℕ → Bool
unfolding is_ascii_uppercase is_ascii_digit
assigns [] = false
assigns (c ∷ cs) =
    if c == b'='
    then true
    else if is_ascii_uppercase c || is_ascii_digit c || c == b'_'
    then assigns cs
    else false

unfoldable pub is_env_assignment : List ℕ → Bool
unfolding assigns
is_env_assignment [] = false
is_env_assignment (c ∷ cs) = if is_ascii_uppercase c || c == b'_' then assigns cs else false

-- `rsplit('/').next()`: what stands behind the last slash.
basename_from : List ℕ → List ℕ → List ℕ
basename_from part [] = part
basename_from part (c ∷ cs) = basename_from (if c == b'/' then [] else part ++ c ∷ []) cs

unfoldable pub basename : List ℕ → List ℕ
unfolding basename_from
basename = basename_from []

find_prefix : List ℕ → List CliAgent → Option CliAgent
unfolding text_eq command_prefix
find_prefix name [] = none
find_prefix name (a ∷ rest) =
    if text_eq name (command_prefix a) then some a else find_prefix name rest

-- What is made of the first token that is no assignment.
identify : List ℕ → Option CliAgent
unfolding find_prefix all
identify name = if text_eq name (codes "vibe-acp") then some vibe else find_prefix name all

-- The loop over the tokens.
detect_in : List (List ℕ) → Option CliAgent
unfolding is_env_assignment basename identify
detect_in [] = none
detect_in (t ∷ ts) = if is_env_assignment t then detect_in ts else identify (basename t)

unfoldable pub detect : List ℕ → Option CliAgent
unfolding detect_in split_whitespace
detect command = detect_in (split_whitespace command)
