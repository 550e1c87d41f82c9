-- ===== src/Prelude/Decimal.antt =====
-- Decimal texts: Rust's `to_string` and `parse` of an unsigned number, and `printf '%d'` of a shell.
use mathlib.Core.List.{concat-ne-nil}
use mathlib.Core.Logic.{◌≢◌, inl, inr}
use Prim.Native.Nat.{ℕ, zero, suc, ◌+◌, ◌-◌, ◌*◌, ◌/◌, ◌%◌, ◌<◌, ◌≤◌}
use mathlib.Core.Path.{◌≡◌, refl}
use mathlib.Core.Bool.{Bool, ◌&&◌}
use mathlib.Core.List.{[], ◌∷◌, ◌++◌}
use native.Mathlib.Omega.{arith}
use bed_term.Prelude.Tests.{ltb, leb, if◌then◌else◌, Bool-cases}
use bed_term.Prelude.Lists.{Bytes, Forall, Forall-append}

unfoldable pub is_ascii_digit : ℕ → Bool
is_ascii_digit b = leb b'0' b && leb b b'9'

-- The value of a text of digits, behind the value of the digits before it.
unfoldable pub digits_value : ℕ → Bytes → ℕ
digits_value acc [] = acc
digits_value acc (d ∷ ds) = digits_value (acc * 10 + (d - b'0')) ds

-- One more round than the number has digits is enough; there are at most as many as its value.
unfoldable pub print_digits : ℕ → ℕ → Bytes
print_digits zero n = []
print_digits (suc fuel) n =
    let front = print_digits fuel (n / 10) in
    if ltb n 10 then (b'0' + n) ∷ [] else front ++ (b'0' + n % 10) ∷ []

unfoldable pub print_ℕ : ℕ → Bytes
unfolding print_digits
print_ℕ n = print_digits (suc n) n

abbrev pub IsDigit : ℕ → Type 0
IsDigit c = (b'0' ≤ c) × (c ≤ b'9')

pub print_digits-IsDigit : (fuel n : ℕ) → Forall IsDigit (print_digits fuel n)
unfolding print_digits
print_digits-IsDigit zero n = tt
print_digits-IsDigit (suc fuel) n = elim (Bool-cases (ltb n 10)) [
  | inl e ↦ rw e (ground arith)
  | inr e ↦ rw e (
      Forall-append IsDigit (print_digits fuel (n / 10)) _ (print_digits-IsDigit fuel (n / 10))
        (omega arith))
]

pub digits_value-append :
    (acc : ℕ) (xs : Bytes) (d : ℕ)
    → digits_value acc (xs ++ d ∷ []) ≡ digits_value acc xs * 10 + (d - b'0')
unfolding digits_value
digits_value-append acc [] d = refl
digits_value-append acc (x ∷ xs) d = digits_value-append (acc * 10 + (x - b'0')) xs d

pub digits_value-print_digits : (fuel n : ℕ) → n < fuel → digits_value 0 (print_digits fuel n) ≡ n
unfolding print_digits
digits_value-print_digits zero n h = absurd (omega arith)
digits_value-print_digits (suc fuel) n h = elim (Bool-cases (ltb n 10)) [
  | inl e ↦ rw e (unfold digits_value in omega arith)
  | inr e ↦
      rw
        (
          e,
          digits_value-append 0 (print_digits fuel (n / 10)) (b'0' + n % 10),
          digits_value-print_digits fuel (n / 10) (ground arith),
        )
        (omega arith)
]

pub print_digits_ne : (fuel n : ℕ) → print_digits (suc fuel) n ≢ []
unfolding print_digits
print_digits_ne fuel n = elim (Bool-cases (ltb n 10)) [
  | inl e ↦ rw e (ground arith)
  | inr e ↦ rw e (concat-ne-nil (b'0' + n % 10) (print_digits fuel (n / 10)))
]
