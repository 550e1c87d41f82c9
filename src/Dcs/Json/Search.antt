-- ===== src/Dcs/Json/Search.antt =====
-- Where `find_value_start` finds a key: what it passes over, and that a key inside a string that
-- the shell side wrote is never taken for a key of the body.
use bed_term.Prelude.{
  ℕ, zero, suc, ◌+◌, ◌≤◌, ◌<◌, ◌≡◌, refl, ap, ◌∙◌, ◌≢◌, inl, inr, Bool, true, false, ◌&&◌, none,
  some, [], ◌∷◌, ◌++◌, append_assoc, arith, leb, Bool-cases, Bytes, length, drop, length-append,
  drop-length, Forall,
}
use bed_term.Dcs.Hex.{hex_digit}
use bed_term.Dcs.Json.Escape.{escape_byte, escape_bytes}
use bed_term.Dcs.Json.{starts_with, byte_is, key_here, skip_spaces, find_from}

find_from_short :
    (key : Bytes) (i : ℕ) (rest : Bytes)
    → length rest < length key + 3
    → find_from key i rest ≡ none
unfolding find_from
find_from_short key i [] h = refl
find_from_short key i (b ∷ rest) h = ground arith

-- A place that shows no key is passed over.
find_from_skip :
    (key : Bytes) (i b : ℕ) (rest : Bytes)
    → key_here key b rest ≡ false
    → find_from key i (b ∷ rest) ≡ find_from key (i + 1) rest
unfolding find_from
find_from_skip key i b rest h = elim (Bool-cases (leb (length key + 3) (length (b ∷ rest)))) [
  | inl long ↦ rw (long, h)
  | inr short ↦ rw (find_from_short key (i + 1) rest (ground arith)) (ground arith)
]

-- No key stands at the first `n` places.
abbrev pub quiet : Bytes → ℕ → Bytes → Bool
quiet key zero rest = true
quiet key (suc n) [] = false
quiet key (suc n) (b ∷ rest) = elim (key_here key b rest) [
  | true ↦ false
  | false ↦ quiet key n rest
]

pub find_from-quiet :
    (key : Bytes) (n i : ℕ) (rest : Bytes)
    → quiet key n rest ≡ true
    → find_from key i rest ≡ find_from key (i + n) (drop n rest)
find_from-quiet key zero i rest h =
    let e : i ≡ i + 0 = omega arith in ap (λ j. find_from key j rest) e
find_from-quiet key (suc n) i [] h = cc
find_from-quiet key (suc n) i (b ∷ rest) h = elim (Bool-cases (key_here key b rest)) [
  | inl e ↦ absurd (true≢quiet e h)
  | inr e ↦
      find_from_skip key i b rest e
      ∙ find_from-quiet key n (i + 1) rest (ground arith)
      ∙ ap (λ j. find_from key j (drop n rest)) (omega arith)
]
  where
    true≢quiet : key_here key b rest ≡ true → quiet key (suc n) (b ∷ rest) ≡ true → ⊥
    true≢quiet e k = ground arith

key_here_other : (key : Bytes) (b : ℕ) (rest : Bytes) → b ≢ b'"' → key_here key b rest ≡ false
unfolding key_here
key_here_other key b rest h = ground arith

-- A key is found, and its value starts right behind the colon.
pub find_from_hit :
    (key : Bytes) (i b : ℕ) (rest : Bytes)
    → key_here key b rest ≡ true
    → length key + 2 ≤ length rest
    → skip_spaces (drop (length key + 2) rest) ≡ 0
    → find_from key i (b ∷ rest) ≡ some (i + 3 + length key)
unfolding find_from
find_from_hit key i b rest e h k = ground arith

-- The text of a key holds no quotation mark and no backslash.
abbrev pub Plain : Bytes → Type 0
Plain = Forall (λ k. (k ≢ b'"') × (k ≢ b'\\'))

byte_is-suc : (t n c : ℕ) (rest : Bytes) → byte_is (t ∷ rest) (suc n + 1) c ≡ byte_is rest (n + 1) c
unfolding byte_is
byte_is-suc t n c rest =
    let e : suc n + 1 ≡ suc (n + 1) = omega arith in ap (λ j. byte_is (t ∷ rest) j c) e

-- Behind a quotation mark, `text` goes on as a key does.
abbrev pub follows : Bytes → Bytes → Bool
follows key text =
    starts_with text key && (byte_is text (length key) b'"' && byte_is text (length key + 1) b':')

key_here-follows : (key rest : Bytes) → key_here key b'"' rest ≡ follows key rest
unfolding key_here
key_here-follows key rest = ground arith

-- The rest of a written string, with its closing quotation mark and the byte `c` behind it.
abbrev pub string_rest : Bytes → ℕ → Bytes → Bytes
string_rest s c rest = escape_bytes s ++ b'"' ∷ c ∷ rest

follows-string_rest :
    (key s : Bytes) (c : ℕ) (rest : Bytes)
    → Plain key
    → c ≢ b':'
    → follows key (string_rest s c rest) ≡ false
unfolding starts_with escape_bytes byte_is
follows-string_rest [] [] c rest p h = ground arith
follows-string_rest [] (o ∷ os) c rest p h = unfold escape_byte in ground arith
follows-string_rest (k ∷ ks) [] c rest p h = ground arith
follows-string_rest (k ∷ ks) (o ∷ os) c rest p h = step (follows-string_rest ks os c rest p.1 h)
  where
    step :
        follows ks (string_rest os c rest) ≡ false
        → follows (k ∷ ks) (string_rest (o ∷ os) c rest) ≡ false
    step ih =
        unfold escape_byte in
        ground (arith, ih, byte_is-suc o (length ks) b':' (string_rest os c rest))

quiet-escape_byte :
    (key : Bytes) (o : ℕ) (rest : Bytes)
    → follows key rest ≡ false
    → quiet key (length (escape_byte o)) (escape_byte o ++ rest) ≡ true
unfolding key_here escape_byte hex_digit
quiet-escape_byte key o rest h = ground arith

find_from-string_rest :
    (key s : Bytes) (c i : ℕ) (rest : Bytes)
    → Plain key
    → c ≢ b':'
    → follows key (c ∷ rest) ≡ false
    → find_from key i (string_rest s c rest)
      ≡ find_from key (i + length (escape_bytes s) + 1) (c ∷ rest)
unfolding escape_bytes
find_from-string_rest key [] c i rest p h k =
    find_from_skip key i b'"' (c ∷ rest) (key_here-follows key (c ∷ rest) ∙ k)
    ∙ ap (λ j. find_from key j (c ∷ rest)) (omega arith)
find_from-string_rest key (o ∷ os) c i rest p h k =
    let after = string_rest os c rest in
    let n = length (escape_byte o) in
    rw append_assoc (
      find_from-quiet key n i (escape_byte o ++ after)
        (quiet-escape_byte key o after (follows-string_rest key os c rest p h))
      ∙ ap (find_from key (i + n)) (drop-length (escape_byte o) after)
      ∙ find_from-string_rest key os c (i + n) rest p h k
      ∙ ap (λ j. find_from key j (c ∷ rest))
          (omega (arith, length-append (escape_byte o) (escape_bytes os))))

-- A written string is passed over whole, whatever it holds: no text in it is taken for a key.
pub find_from-string :
    (key s : Bytes) (c i : ℕ) (rest : Bytes)
    → Plain key
    → c ≢ b':'
    → follows key (c ∷ rest) ≡ false
    → find_from key i (b'"' ∷ string_rest s c rest)
      ≡ find_from key (i + length (escape_bytes s) + 2) (c ∷ rest)
find_from-string key s c i rest p h k =
    find_from_skip key i b'"' (string_rest s c rest)
      (key_here-follows key (string_rest s c rest) ∙ follows-string_rest key s c rest p h)
    ∙ find_from-string_rest key s c (i + 1) rest p h k
    ∙ ap (λ j. find_from key j (c ∷ rest)) (omega arith)
