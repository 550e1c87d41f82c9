-- ===== src/CliAgent/Detect.antt =====
-- What `detect` recognises.
use bed_term.Prelude.{
  ℕ, ◌<◌, ◌≡◌, refl, sym, ap, ◌∙◌, ◌≢◌, ◌⊎◌, inl, inr, true, false, Option, none, some, List, [],
  ◌∷◌, ◌++◌, append-nil, append_assoc, arith, ◌==◌, if◌then◌else◌, Bool-cases, Forall,
}
use bed_term.Prelude.Text.{codes, text_eq, text_eq→eq}
use bed_term.CliAgent.Tokens.{IsGap, Spaced, spread, words, IsSpaced, split_whitespace-spread}
use bed_term.CliAgent.{
  CliAgent, claude, gemini, codex, vibe, command_prefix, ffi_tag, all, split_whitespace,
  is_env_assignment, basename_from, basename, find_prefix, identify, detect_in, detect,
}

-- The names of the agents differ, so that each is found by its own.
identify-command_prefix : (a : CliAgent) → identify (command_prefix a) ≡ some a
unfolding identify command_prefix
identify-command_prefix claude = refl
identify-command_prefix gemini = refl
identify-command_prefix codex = refl
identify-command_prefix _ = refl

find_prefix_sound :
    (name : List ℕ) (agents : List CliAgent) {a : CliAgent}
    → find_prefix name agents ≡ some a
    → name ≡ command_prefix a
unfolding find_prefix
find_prefix_sound name [] h = cc
find_prefix_sound name (b ∷ rest) {a} h = elim (Bool-cases (text_eq name (command_prefix b))) [
  | inl e ↦
      let same : b ≡ a = ground arith in
      text_eq→eq name (command_prefix b) e ∙ ap command_prefix same
  | inr e ↦ find_prefix_sound name rest (ground arith)
]

-- The name that an agent goes by: its prefix, or the other binary of Vibe.
abbrev pub Names : List ℕ → CliAgent → Type 0
Names name a = (name ≡ command_prefix a) ⊎ ((name ≡ codes "vibe-acp") × (a ≡ vibe))

identify-Names : (name : List ℕ) (a : CliAgent) → identify name ≡ some a → Names name a
unfolding identify
identify-Names name a h = elim (Bool-cases (text_eq name (codes "vibe-acp"))) [
  | inl e ↦ inr (text_eq→eq name (codes "vibe-acp") e, ground arith)
  | inr e ↦ inl (find_prefix_sound name all (ground arith))
]

basename_from-plain :
    (part name : List ℕ) → Forall (λ c. c ≢ b'/') name → basename_from part name ≡ part ++ name
unfolding basename_from
basename_from-plain part [] h = sym (append-nil part)
basename_from-plain part (c ∷ cs) h =
    let other : (c == b'/') ≡ false = ground arith in
    rw other (basename_from-plain (part ++ c ∷ []) cs h.1 ∙ append_assoc part (c ∷ []) cs)

basename_from-slash :
    (part dir name : List ℕ)
    → Forall (λ c. c ≢ b'/') name
    → basename_from part (dir ++ b'/' ∷ name) ≡ name
unfolding basename_from
basename_from-slash part [] name h = basename_from-plain [] name h
basename_from-slash part (d ∷ ds) name h =
    basename_from-slash (if d == b'/' then [] else part ++ d ∷ []) ds name h

-- A token that is no path, or a path in any directory.
abbrev pub in_directory : Option (List ℕ) → List ℕ → List ℕ
in_directory none name = name
in_directory (some dir) name = dir ++ b'/' ∷ name

basename-in_directory :
    (dir : Option (List ℕ)) (name : List ℕ)
    → Forall (λ c. c ≢ b'/') name
    → basename (in_directory dir name) ≡ name
unfolding basename
basename-in_directory none name h = basename_from-plain [] name h
basename-in_directory (some dir) name h = basename_from-slash [] dir name h

command_prefix-plain : (a : CliAgent) → Forall (λ c. c ≢ b'/') (command_prefix a)
unfolding command_prefix
command_prefix-plain claude = omega arith
command_prefix-plain gemini = omega arith
command_prefix-plain _ = omega arith

detect_in-skips :
    (envs rest : List (List ℕ))
    → Forall (λ t. is_env_assignment t ≡ true) envs
    → detect_in (envs ++ rest) ≡ detect_in rest
unfolding detect_in
detect_in-skips [] rest h = refl
detect_in-skips (t ∷ ts) rest h = rw h.0 (detect_in-skips ts rest h.1)

-- A command line that starts an agent, behind any assignments and in any directory whose path is
-- not read as an assignment, whatever white space is between its words and whatever arguments
-- follow, is recognised as that agent.
pub detect-agent :
    (lead : List ℕ) (line : Spaced) (envs args : List (List ℕ)) (dir : Option (List ℕ))
    (a : CliAgent)
    → IsGap lead
    → IsSpaced line
    → Forall (λ t. is_env_assignment t ≡ true) envs
    → is_env_assignment (in_directory dir (command_prefix a)) ≡ false
    → words line ≡ envs ++ in_directory dir (command_prefix a) ∷ args
    → detect (lead ++ spread line) ≡ some a
unfolding detect
detect-agent lead line envs args dir a g s v plain w =
    ap detect_in (split_whitespace-spread lead line g s ∙ w)
    ∙ detect_in-skips envs (in_directory dir (command_prefix a) ∷ args) v
    ∙ rw (plain, detect_in)
        (ap identify (basename-in_directory dir (command_prefix a) (command_prefix-plain a))
          ∙ identify-command_prefix a)

-- The first token that is no assignment.
abbrev pub first_command : List (List ℕ) → Option (List ℕ)
first_command [] = none
first_command (t ∷ ts) =
    let later = first_command ts in if is_env_assignment t then later else some t

detect_in-Names :
    (ts : List (List ℕ)) (a : CliAgent)
    → detect_in ts ≡ some a
    → (t : List ℕ) × (first_command ts ≡ some t) × Names (basename t) a
unfolding detect_in
detect_in-Names [] a h = cc
detect_in-Names (t ∷ ts) a h = elim (Bool-cases (is_env_assignment t)) [
  | inl e ↦ rw e (detect_in-Names ts a (ground arith))
  | inr e ↦ rw e (t, refl, identify-Names (basename t) a (ground arith))
]

-- Where an agent is detected, the first word of the line that is no assignment has the name of
-- the agent behind its last slash.
pub detect-Names :
    (command : List ℕ) (a : CliAgent)
    → detect command ≡ some a
    → (t : List ℕ) × (first_command (split_whitespace command) ≡ some t) × Names (basename t) a
unfolding detect
detect-Names command a h = detect_in-Names (split_whitespace command) a h

-- The tags that cross the boundary to Swift tell the agents apart, and none is 0.
pub ffi_tag-injective : (a b : CliAgent) → ffi_tag a ≡ ffi_tag b → (a ≡ b) × (0 < ffi_tag a)
unfolding ffi_tag
ffi_tag-injective a b h = ground arith
