-- ===== src/CliAgent/Tokens.antt =====
-- The words of a line, however they are set apart.
use bed_term.Prelude.{
  ℕ, ◌≡◌, refl, ap, ◌∙◌, ◌≢◌, true, false, List, [], ◌∷◌, ◌++◌, map, append-nil, append_assoc,
  Forall,
}
use bed_term.CliAgent.{is_whitespace, push_word, split_from, split_whitespace}

abbrev pub IsGap : List ℕ → Type 0
IsGap = Forall (λ c. is_whitespace c ≡ true)

-- A word: no white space in it, and not empty.
abbrev pub IsWord : List ℕ → Type 0
IsWord w = Forall (λ c. is_whitespace c ≡ false) w × (w ≢ [])

-- Words, each with the gap behind it.
abbrev pub Spaced : Type 0
Spaced = List (List ℕ × List ℕ)

abbrev pub spread : Spaced → List ℕ
spread [] = []
spread ((w, gap) ∷ rest) = w ++ (gap ++ spread rest)

abbrev pub words : Spaced → List (List ℕ)
words = map λ p. p.0

-- Between two words stands white space; behind the last there may be some.
abbrev pub IsSpaced : Spaced → Type 0
IsSpaced [] = Unit
IsSpaced ((w, gap) ∷ []) = IsWord w × IsGap gap
IsSpaced ((w, gap) ∷ p ∷ rest) = IsWord w × IsGap gap × (gap ≢ []) × IsSpaced (p ∷ rest)

split_from-word :
    (word w rest : List ℕ)
    → Forall (λ c. is_whitespace c ≡ false) w
    → split_from word (w ++ rest) ≡ split_from (word ++ w) rest
unfolding split_from
split_from-word word [] rest h = rw append-nil
split_from-word word (c ∷ cs) rest h =
    rw h.0 (split_from-word (word ++ c ∷ []) cs rest h.1 ∙ rw append_assoc)

split_from-gap : (gap rest : List ℕ) → IsGap gap → split_from [] (gap ++ rest) ≡ split_from [] rest
unfolding split_from
split_from-gap [] rest h = refl
split_from-gap (c ∷ cs) rest h = rw h.0 (unfold push_word in split_from-gap cs rest h.1)

-- White space ends the word before it.
split_from-ends :
    (w : List ℕ) (c : ℕ) (cs rest : List ℕ)
    → w ≢ []
    → IsGap (c ∷ cs)
    → split_from w ((c ∷ cs) ++ rest) ≡ w ∷ split_from [] rest
unfolding split_from push_word
split_from-ends [] c cs rest ne h = absurd (ne refl)
split_from-ends (x ∷ xs) c cs rest ne h = rw h.0 (ap (◌∷◌ (x ∷ xs)) (split_from-gap cs rest h.1))

split_from-last : (w gap : List ℕ) → w ≢ [] → IsGap gap → split_from w (gap ++ []) ≡ w ∷ []
split_from-last [] gap ne h = absurd (ne refl)
split_from-last (x ∷ xs) [] ne h = unfold split_from push_word in refl
split_from-last (x ∷ xs) (c ∷ cs) ne h =
    split_from-ends (x ∷ xs) c cs [] ne h ∙ unfold split_from push_word in refl

split_from-spread : (s : Spaced) → IsSpaced s → split_from [] (spread s) ≡ words s
split_from-spread [] h = unfold split_from push_word in refl
split_from-spread ((w, gap) ∷ []) h =
    split_from-word [] w (gap ++ []) h.0.0 ∙ split_from-last w gap h.0.1 h.1
split_from-spread ((w, []) ∷ p ∷ rest) h = absurd (h.2 refl)
split_from-spread ((w, c ∷ cs) ∷ p ∷ rest) h =
    split_from-word [] w ((c ∷ cs) ++ spread (p ∷ rest)) h.0.0
    ∙ split_from-ends w c cs (spread (p ∷ rest)) h.0.1 h.1
    ∙ ap (◌∷◌ w) (split_from-spread (p ∷ rest) h.3)

-- Splitting gives the words of a line, whatever white space stands before, between and behind them.
pub split_whitespace-spread :
    (lead : List ℕ) (s : Spaced)
    → IsGap lead
    → IsSpaced s
    → split_whitespace (lead ++ spread s) ≡ words s
unfolding split_whitespace
split_whitespace-spread lead s g h = split_from-gap lead (spread s) g ∙ split_from-spread s h
