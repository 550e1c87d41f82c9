-- ===== src/HostsList/Reader/Shrink.antt =====
-- The readers of rust-core/bedterm-ios/src/hosts/model.rs that have no loop of their own or one on the
-- text: what they leave is shorter.
use bed_term.Prelude.{
  ℕ, suc, ◌≤◌, ◌<◌, ◌≡◌, inl, inr, Bool, true, false, some, [], ◌∷◌, ◌++◌, arith, Option-cases,
  length,
}
use bed_term.Prelude.Text.{codes, Text}
use bed_term.Dcs.Json.{parse_i64}
use bed_term.HostsList.{
  Outcome, parsed, failed, panicked, exhausted, and_then, skip_ws, unescape, string_loop,
  parse_string, span_digits, signed_of, number_of, parse_number, strip_prefix, parse_bool,
  skip_string, skip_token, skip_value,
}

-- No lack of fuel, and a rest that is shorter than `n`.
abbrev pub Reads {ℓ} : {A : Type ℓ} → ℕ → Outcome A → Type 0
Reads n (parsed a rest) = length rest < n
Reads n failed = Unit
Reads n panicked = Unit
Reads n exhausted = ⊥

pub and_then-Reads {ℓ κ} :
    {A : Type ℓ} {B : Type κ} (n m : ℕ) (o : Outcome A) (f : A → Text → Outcome B)
    → Reads n o
    → ((a : A) (rest : Text) → length rest < n → Reads m (f a rest))
    → Reads m (and_then o f)
and_then-Reads n m (parsed a rest) f h k = k a rest h
and_then-Reads n m failed f h k = tt
and_then-Reads n m panicked f h k = tt
and_then-Reads n m exhausted f h k = h

pub Reads-more {ℓ} : {A : Type ℓ} (n m : ℕ) (o : Outcome A) → Reads n o → n ≤ m → Reads m o
Reads-more n m (parsed a rest) h k = omega arith
Reads-more n m failed h k = tt
Reads-more n m panicked h k = tt
Reads-more n m exhausted h k = h

string_loop-Reads : (out s : Text) → Reads (length s) (string_loop out s)
unfolding string_loop
string_loop-Reads out [] = tt
string_loop-Reads out (c ∷ []) = ground arith
string_loop-Reads out (c ∷ n ∷ rest) =
    let escaped =
      Reads-more (length rest) (suc (suc (length rest))) _
        (string_loop-Reads (out ++ (unescape n ∷ [])) rest) (omega arith) in
    let plain =
      Reads-more (suc (length rest)) (suc (suc (length rest))) _
        (string_loop-Reads (out ++ (c ∷ [])) (n ∷ rest)) (omega arith) in
    ground arith

pub parse_string-Reads : (s : Text) → Reads (length s) (parse_string s)
unfolding parse_string
parse_string-Reads [] = tt
parse_string-Reads (c ∷ cs) =
    let inner =
      Reads-more (length cs) (suc (length cs)) _ (string_loop-Reads [] cs) (omega arith) in
    ground arith

pub length-skip_ws : (s : Text) → length (skip_ws s) ≤ length s
unfolding skip_ws
length-skip_ws [] = omega arith
length-skip_ws (c ∷ cs) = ground (arith, length-skip_ws cs)

length-span_digits : (s : Text) → length (span_digits s).1 ≤ length s
unfolding span_digits
length-span_digits [] = omega arith
length-span_digits (c ∷ cs) = ground (arith, length-span_digits cs)

number_of-Reads : (neg : Bool) (p : Text × Text) → Reads (suc (length p.1)) (number_of neg p)
unfolding number_of signed_of
number_of-Reads neg p = elim (Option-cases (parse_i64 p.0)) [
  | inl e ↦ rw e tt
  | inr (n, e) ↦ rw e (omega arith)
]

pub parse_number-Reads : (s : Text) → Reads (suc (length s)) (parse_number s)
unfolding parse_number
parse_number-Reads [] = tt
parse_number-Reads (c ∷ cs) =
    let minus =
      Reads-more _ (suc (suc (length cs))) _ (number_of-Reads true (span_digits cs))
        (omega (arith, length-span_digits cs)) in
    let plus =
      Reads-more _ (suc (suc (length cs))) _ (number_of-Reads false (span_digits (c ∷ cs)))
        (omega (arith, length-span_digits (c ∷ cs))) in
    ground arith

strip_prefix_shorter : (p s rest : Text) → strip_prefix p s ≡ some rest → length rest ≤ length s
unfolding strip_prefix
strip_prefix_shorter [] s rest h = ground arith
strip_prefix_shorter (x ∷ p) [] rest h = cc
strip_prefix_shorter (x ∷ p) (c ∷ cs) rest h = ground (arith, strip_prefix_shorter p cs rest)

pub parse_bool-Reads : (s : Text) → Reads (suc (length s)) (parse_bool s)
unfolding parse_bool strip_prefix
parse_bool-Reads s = elim (Option-cases (strip_prefix (codes "true") s)) [
  | inr (r, e) ↦ rw e (omega (arith, strip_prefix_shorter (codes "true") s r e))
  | inl e ↦ elim (Option-cases (strip_prefix (codes "false") s)) [
    | inr (r, k) ↦ rw (e, k) (omega (arith, strip_prefix_shorter (codes "false") s r k))
    | inl k ↦ rw (e, k) tt
  ]
]

skip_string-Reads : (s : Text) → Reads (suc (length s)) (skip_string s)
unfolding skip_string
skip_string-Reads [] = tt
skip_string-Reads (c ∷ []) = ground arith
skip_string-Reads (c ∷ n ∷ rest) =
    let escaped =
      Reads-more _ (suc (suc (suc (length rest)))) _ (skip_string-Reads rest) (omega arith) in
    let plain =
      Reads-more _ (suc (suc (suc (length rest)))) _ (skip_string-Reads (n ∷ rest)) (omega arith) in
    ground arith

length-skip_token : (s : Text) → length (skip_token s) ≤ length s
unfolding skip_token
length-skip_token [] = omega arith
length-skip_token (c ∷ cs) = ground (arith, length-skip_token cs)

pub skip_value-Reads : (s : Text) → Reads (suc (length s)) (skip_value s)
unfolding skip_value
skip_value-Reads [] = tt
skip_value-Reads (c ∷ cs) =
    let inner = Reads-more _ (suc (suc (length cs))) _ (skip_string-Reads cs) (omega arith) in
    ground (arith, length-skip_token (c ∷ cs))
