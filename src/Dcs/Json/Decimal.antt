-- ===== src/Dcs/Json/Decimal.antt =====
-- `printf '%d'` of the shell side, and that the scanner of `find_int_in_value` reads it back.
use bed_term.Prelude.{
  ℕ, suc, ◌^◌, ◌<◌, ◌≡◌, refl, ap, ◌∙◌, ◌≢◌, some, [], ◌∷◌, ◌++◌, arith, ◌>>=◌, Bytes, Forall,
  IsByte,
}
use bed_term.Prelude.Decimal.{
  digits_value, print_digits, print_ℕ, IsDigit, print_digits-IsDigit, digits_value-print_digits,
  print_digits_ne,
}
use bed_term.Prelude.Int.{ℤ, pos, negsuc, IsI32}
use bed_term.Dcs.Json.{skip_spaces, digits_at, parse_i64, negated, int_at}

unfoldable pub print_ℤ : ℤ → Bytes
print_ℤ (pos n) = print_ℕ n
print_ℤ (negsuc n) = b'-' ∷ print_ℕ (suc n)

digits-IsByte : (ds : Bytes) → Forall IsDigit ds → Forall IsByte ds
digits-IsByte [] h = tt
digits-IsByte (d ∷ ds) h = (omega arith, digits-IsByte ds h.1)

-- The scanner stops at the first byte that is no digit.
digits_at-append :
    (ds : Bytes) (c : ℕ) (rest : Bytes)
    → Forall IsDigit ds
    → b'9' < c
    → digits_at (ds ++ c ∷ rest) ≡ ds
unfolding digits_at
digits_at-append [] c rest h k = ground arith
digits_at-append (d ∷ ds) c rest h k = ground (arith, digits_at-append ds c rest h.1 k)

parse_i64-eq :
    (ds : Bytes) → ds ≢ [] → digits_value 0 ds < 2 ^ 63 → parse_i64 ds ≡ some (digits_value 0 ds)
unfolding parse_i64
parse_i64-eq [] h k = absurd (h refl)
parse_i64-eq (d ∷ ds) h k = ground arith

pub parse_i64-print_ℕ : (n : ℕ) → n < 2 ^ 63 → parse_i64 (print_ℕ n) ≡ some n
unfolding print_ℕ
parse_i64-print_ℕ n h =
    let v = digits_value-print_digits (suc n) n (omega arith) in
    parse_i64-eq (print_digits (suc n) n) (print_digits_ne n n) (omega (arith, v)) ∙ ap some v

int_at_digits :
    (ds : Bytes) (c : ℕ) (rest : Bytes)
    → Forall IsDigit ds
    → ds ≢ []
    → b'9' < c
    → int_at (ds ++ c ∷ rest) ≡ (parse_i64 ds >>= λ n. some (pos n))
unfolding int_at
int_at_digits [] c rest h ne k = absurd (ne refl)
int_at_digits (d ∷ ds) c rest h ne k = ground (arith, digits_at-append (d ∷ ds) c rest h k)

int_at_negative :
    (ds : Bytes) (c : ℕ) (rest : Bytes)
    → Forall IsDigit ds
    → b'9' < c
    → int_at (b'-' ∷ ds ++ c ∷ rest) ≡ (parse_i64 ds >>= λ n. some (negated n))
unfolding int_at
int_at_negative ds c rest h k = ground (arith, digits_at-append ds c rest h k)

print_ℕ-digits : (n : ℕ) → Forall IsDigit (print_ℕ n) × (print_ℕ n ≢ [])
unfolding print_ℕ
print_ℕ-digits n = (print_digits-IsDigit (suc n) n, print_digits_ne n n)

-- A printed integer of 32 bits is read back, whatever follows it that begins with no digit.
pub int_at-print_ℤ :
    (n : ℤ) (c : ℕ) (rest : Bytes) → IsI32 n → b'9' < c → int_at (print_ℤ n ++ c ∷ rest) ≡ some n
unfolding print_ℤ negated
int_at-print_ℤ (pos n) c rest h k =
    let d = print_ℕ-digits n in
    int_at_digits (print_ℕ n) c rest d.0 d.1 k ∙ rw (parse_i64-print_ℕ n (omega arith))
int_at-print_ℤ (negsuc n) c rest h k =
    int_at_negative (print_ℕ (suc n)) c rest (print_ℕ-digits (suc n)).0 k
    ∙ rw (parse_i64-print_ℕ (suc n) (omega arith))

pub print_ℤ-IsByte : (n : ℤ) → Forall IsByte (print_ℤ n)
unfolding print_ℤ
print_ℤ-IsByte (pos n) = digits-IsByte (print_ℕ n) (print_ℕ-digits n).0
print_ℤ-IsByte (negsuc n) =
    (omega arith, digits-IsByte (print_ℕ (suc n)) (print_ℕ-digits (suc n)).0)

skip_spaces-digits : (ds rest : Bytes) → Forall IsDigit ds → ds ≢ [] → skip_spaces (ds ++ rest) ≡ 0
unfolding skip_spaces
skip_spaces-digits [] rest h ne = absurd (ne refl)
skip_spaces-digits (d ∷ ds) rest h ne = ground arith

pub print_ℤ-skip : (n : ℤ) (rest : Bytes) → skip_spaces (print_ℤ n ++ rest) ≡ 0
unfolding print_ℤ
print_ℤ-skip (pos n) rest = let d = print_ℕ-digits n in skip_spaces-digits (print_ℕ n) rest d.0 d.1
print_ℤ-skip (negsuc n) rest = unfold skip_spaces in refl
