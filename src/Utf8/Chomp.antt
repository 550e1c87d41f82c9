-- ===== src/Utf8/Chomp.antt =====
-- That a text without the newline at its end, as the shell side prints it, is UTF-8 where the text
-- is.
use bed_term.Prelude.{
  ℕ, ◌≡◌, ◌⊎◌, refl, sym, ◌∙◌, subst, Bool, true, false, Option, none, some, List, [], ◌∷◌, inl,
  inr, arith, ◌==◌, ◌>>=◌, is_some, Bytes, Bool-cases,
}
use bed_term.Utf8.{Partial, Step, done, wait, refuse, step, decode, decode_utf8, from_utf8}
use bed_term.Dcs.Json.Escape.{chomp}

-- What `decode` answers behind a step: whether the rest is accepted.
accepted : Step → Bytes → Bool
accepted (done c) bs = is_some (decode none bs)
accepted (wait p) bs = is_some (decode (some p) bs)
accepted refuse bs = false

is_some-cons : (c : ℕ) (o : Option (List ℕ)) → is_some (o >>= λ cs. some (c ∷ cs)) ≡ is_some o
is_some-cons c none = refl
is_some-cons c (some cs) = refl

Step-cases : (r : Step) → ((c : ℕ) × (r ≡ done c)) ⊎ ((p : Partial) × (r ≡ wait p)) ⊎ (r ≡ refuse)
Step-cases (done c) = inl (c, refl)
Step-cases (wait p) = inr (inl (p, refl))
Step-cases refuse = inr (inr refl)

decode-step :
    (s : Option Partial) (b : ℕ) (bs : Bytes) → is_some (decode s (b ∷ bs)) ≡ accepted (step s b) bs
unfolding decode accepted
decode-step s b bs = elim (Step-cases (step s b)) [
  | inl (c, e) ↦ rw (e, decode) (is_some-cons c (decode none bs))
  | inr (inl (p, e)) ↦ rw (e, decode) refl
  | inr (inr e) ↦ rw (e, decode) refl
]

-- A character does not end in the middle of a newline.
newline_ends : (s : Option Partial) → accepted (step s 10) [] ≡ true → is_some (decode s []) ≡ true
unfolding accepted step decode
newline_ends none h = refl
newline_ends (some p) h = ground (arith, h)

accepted-both :
    (r : Step) (bs cs : Bytes)
    → ((s : Option Partial) → is_some (decode s bs) ≡ true → is_some (decode s cs) ≡ true)
    → accepted r bs ≡ true
    → accepted r cs ≡ true
unfolding accepted
accepted-both (done c) bs cs f h = f none h
accepted-both (wait p) bs cs f h = f (some p) h
accepted-both refuse bs cs f h = h

decode-chomp :
    (s : Option Partial) (bs : Bytes)
    → is_some (decode s bs) ≡ true
    → is_some (decode s (chomp bs)) ≡ true
unfolding chomp
decode-chomp s [] h = h
decode-chomp s (b ∷ []) h = elim (Bool-cases (b == 10)) [
  | inl e ↦
      let newline : b ≡ 10 = ground (arith, e) in
      let there : accepted (step s 10) [] ≡ true =
        subst (λ (x : ℕ). accepted (step s x) [] ≡ true) newline (sym (decode-step s b []) ∙ h) in
      rw e (newline_ends s there)
  | inr e ↦ rw e h
]
decode-chomp s (b ∷ c ∷ bs) h =
    decode-step s b (chomp (c ∷ bs))
    ∙ accepted-both (step s b) (c ∷ bs) (chomp (c ∷ bs)) (λ t. decode-chomp t (c ∷ bs))
        (sym (decode-step s b (c ∷ bs)) ∙ h)

pub from_utf8-chomp : (bs : Bytes) → from_utf8 bs ≡ some bs → from_utf8 (chomp bs) ≡ some (chomp bs)
unfolding from_utf8 decode_utf8
from_utf8-chomp bs h =
    let valid : is_some (decode none bs) ≡ true = ground (arith, h) in
    rw (decode-chomp none bs valid) refl
