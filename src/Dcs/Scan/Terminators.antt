-- ===== src/Dcs/Scan/Terminators.antt =====
-- The two string terminators, and what the scanner does where one of them stands.
use bed_term.Prelude.{
  ℕ, suc, ◌+◌, ◌≡◌, refl, ap, ◌≢◌, inl, inr, true, ◌&&◌, none, some, [], ◌∷◌, ◌++◌, arith, ◌==◌,
  Bool-cases, >>=-eq-some, Bytes, length, get_elem?, take-length, drop-append, Forall,
}
use bed_term.Dcs.Body.{parse_body}
use bed_term.Dcs.Scan.{next_is, find_st, advance, skip_foreign, take_frame}

-- The two string terminators.
pub data Terminator : Type 0 where
  st_8bit st_7bit : Terminator

abbrev pub st_bytes : Terminator → Bytes
st_bytes st_8bit = 0x9C ∷ []
st_bytes st_7bit = 0x1B ∷ b'\\' ∷ []

-- A byte that neither starts nor is a terminator.
abbrev pub IsInner : ℕ → Type 0
IsInner b = (b ≢ 0x9C) × (b ≢ 0x1B)

pub find_st-inner :
    (text : Bytes) (t : Terminator) (rest : Bytes)
    → Forall IsInner text
    → find_st (text ++ (st_bytes t ++ rest)) ≡ some (length text)
unfolding find_st
find_st-inner [] st_8bit rest h = refl
find_st-inner [] st_7bit rest h = refl
find_st-inner (b ∷ bs) t rest h = ground (arith, find_st-inner bs t rest h.1)

get_elem?-length :
    (text : Bytes) (b : ℕ) (rest : Bytes) → get_elem? (text ++ b ∷ rest) (length text) ≡ some b
get_elem?-length [] b rest = refl
get_elem?-length (x ∷ xs) b rest = get_elem?-length xs b rest

pub take_frame-st :
    (body : Bytes) (t : Terminator) (rest : Bytes)
    → find_st (body ++ (st_bytes t ++ rest)) ≡ some (length body)
    → take_frame (body ++ (st_bytes t ++ rest))
      ≡ advance (4 + length body + length (st_bytes t)) (parse_body body)
unfolding take_frame
take_frame-st body st_8bit rest h =
    ground (arith, h, take-length body (0x9C ∷ rest), get_elem?-length body 0x9C rest)
take_frame-st body st_7bit rest h =
    unfold next_is in
    ground (
      arith,
      h,
      take-length body (0x1B ∷ b'\\' ∷ rest),
      get_elem?-length body 0x1B (b'\\' ∷ rest),
      drop-append body (0x1B ∷ b'\\' ∷ rest) 1,
    )

pub skip_foreign-st :
    (text : Bytes) (t : Terminator) (rest : Bytes)
    → find_st (text ++ (st_bytes t ++ rest)) ≡ some (length text)
    → skip_foreign (text ++ (st_bytes t ++ rest))
      ≡ advance (2 + length text + length (st_bytes t)) none
unfolding skip_foreign
skip_foreign-st text st_8bit rest h = ground (arith, h, get_elem?-length text 0x9C rest)
skip_foreign-st text st_7bit rest h = ground (arith, h, get_elem?-length text 0x1B (b'\\' ∷ rest))

next_is-splits : (bs : Bytes) (c : ℕ) → next_is bs c ≡ true → (rest : Bytes) × (bs ≡ c ∷ rest)
unfolding next_is
next_is-splits [] c h = cc
next_is-splits (b ∷ bs) c h = (bs, ground arith)

-- Where a terminator is found the text splits: what stands before it, the terminator, the rest.
pub find_st-splits :
    (text : Bytes) (rel : ℕ)
    → find_st text ≡ some rel
    → (body : Bytes) × (t : Terminator) × (rest : Bytes) × (text ≡ body ++ (st_bytes t ++ rest))
      × (length body ≡ rel)
unfolding find_st
find_st-splits [] rel h = cc
find_st-splits (b ∷ bs) rel h = elim (Bool-cases (b == 0x9C)) [
  | inl e ↦ ([], st_8bit, bs, ground arith, ground arith)
  | inr other ↦ elim (Bool-cases (b == 0x1B && next_is bs b'\\')) [
    | inl e ↦
        let (rest, split) = next_is-splits bs b'\\' (ground arith) in
        ([], st_7bit, rest, ground arith, ground arith)
    | inr e ↦
        let (rel', found, same) =
          >>=-eq-some (find_st bs) (λ i. some (suc i)) {b = rel} (ground arith) in
        let (body, t, rest, split, len) = find_st-splits bs rel' found in
        (b ∷ body, t, rest, ap (◌∷◌ b) split, ground arith)
  ]
]
