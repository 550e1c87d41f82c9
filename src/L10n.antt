-- ===== src/L10n.antt =====
-- rust-core/bedterm-ios/src/l10n.rs: the texts of the user interface. The tables, which the build
-- generates, and the locale that Swift has set are fields here; both may be any.
use bed_term.Prelude.{◌&&◌, Option, none, some, List, [], ◌∷◌, ◌++◌, ◌==◌, if◌then◌else◌, ◌>>=◌}
use bed_term.Prelude.Text.{codes, text_eq, Text, is_empty}

pub record L10n : Type 0 where
  pub tables : List (Text × List (Text × Text))
  pub locale : Text

-- `iter().find(|(k, _)| k == key)`.
unfoldable pub find_key {ℓ} : {A : Type ℓ} → Text → List (Text × A) → Option A
find_key key [] = none
find_key key ((k, v) ∷ rest) = if text_eq k key then some v else find_key key rest

-- `split('_').next()`, where 95 is `_`.
unfoldable pub before_underscore : Text → Text
before_underscore [] = []
before_underscore (c ∷ cs) = let later = before_underscore cs in if c == 95 then [] else c ∷ later

-- One round of the loop of `t`.
unfoldable pub translation : L10n → Text → Text → Option Text
translation l candidate key =
    if is_empty candidate then none else find_key candidate l.tables >>= find_key key

-- The rounds of the loop, up to the first that returns.
unfoldable pub first_translation : L10n → Text → List Text → Text
first_translation l key [] = key
first_translation l key (c ∷ cs) = elim (translation l c key) [
  | some v ↦ v
  | none ↦ first_translation l key cs
]

unfoldable pub t : L10n → Text → Text
t l key = first_translation l key (l.locale ∷ before_underscore l.locale ∷ codes "en" ∷ [])

-- `replacen("%@", arg, 1)`, where 37 is `%` and 64 is `@`.
unfoldable pub replace_first : Text → Text → Text
replace_first arg [] = []
replace_first arg (a ∷ []) = a ∷ []
replace_first arg (a ∷ b ∷ rest) =
    let later = replace_first arg (b ∷ rest) in
    if a == 37 && b == 64 then arg ++ rest else a ∷ later

unfoldable pub format1 : L10n → Text → Text → Text
format1 l key arg = replace_first arg (t l key)
