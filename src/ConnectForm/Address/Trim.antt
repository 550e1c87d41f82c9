-- ===== src/ConnectForm/Address/Trim.antt =====
-- What `trim`, the splits and `parse_u16` of rust-core/bedterm-ios/src/connect_form/model.rs make of a
-- text that is put together.
use bed_term.Prelude.{
  ℕ, suc, ◌+◌, ◌<◌, ◌≡◌, refl, ap, ◌∙◌, true, false, none, some, [], ◌∷◌, ◌++◌, arith, ◌==◌, Forall,
}
use bed_term.Prelude.Text.{Text, is_empty}
use bed_term.Prelude.Decimal.{
  is_ascii_digit, digits_value, print_digits, print_ℕ, IsDigit, print_digits-IsDigit,
  digits_value-print_digits, print_digits_ne,
}
use bed_term.ConnectForm.Address.{
  is_whitespace, trim_start, trim_end, trim, all_digits, u16_of, parse_u16, split_first, split_last,
  colon_count,
}

abbrev pub IsSpace : ℕ → Type 0
IsSpace c = is_whitespace c ≡ true

trim_start-spaces : (ws s : Text) → Forall IsSpace ws → trim_start (ws ++ s) ≡ trim_start s
unfolding trim_start
trim_start-spaces [] s h = refl
trim_start-spaces (w ∷ ws) s h = rw h.0 (trim_start-spaces ws s h.1)

trim_end-spaces : (ws : Text) → Forall IsSpace ws → trim_end ws ≡ []
unfolding trim_end
trim_end-spaces [] h = refl
trim_end-spaces (w ∷ ws) h = rw (h.0, trim_end-spaces ws h.1) refl

trim_end-append_spaces : (s ws : Text) → Forall IsSpace ws → trim_end (s ++ ws) ≡ trim_end s
unfolding trim_end
trim_end-append_spaces [] ws h = trim_end-spaces ws h
trim_end-append_spaces (c ∷ cs) ws h = rw (trim_end-append_spaces cs ws h) refl

is_empty_somewhere : (xs : Text) (y : ℕ) (ys : Text) → is_empty (xs ++ (y ∷ ys)) ≡ false
is_empty_somewhere [] y ys = refl
is_empty_somewhere (x ∷ xs) y ys = refl

pub trim_end_behind :
    (xs : Text) (y : ℕ) (ys : Text)
    → trim_end (y ∷ ys) ≡ y ∷ ys
    → trim_end (xs ++ (y ∷ ys)) ≡ xs ++ (y ∷ ys)
unfolding trim_end
trim_end_behind [] y ys h = h
trim_end_behind (x ∷ xs) y ys h =
    rw (trim_end_behind xs y ys h, is_empty_somewhere xs y ys) (ground arith)

-- `trim` takes the spaces around a text that begins and ends with none.
pub trim_padded :
    (before after : Text) (c : ℕ) (cs : Text)
    → Forall IsSpace before
    → Forall IsSpace after
    → is_whitespace c ≡ false
    → trim_end (c ∷ cs) ≡ c ∷ cs
    → trim (before ++ ((c ∷ cs) ++ after)) ≡ c ∷ cs
unfolding trim
trim_padded before after c cs hb ha hc he =
    rw (trim_start-spaces before ((c ∷ cs) ++ after) hb)
      (unfold trim_start in rw hc (trim_end-append_spaces (c ∷ cs) after ha ∙ he))

pub digit_no_space : (d : ℕ) → IsDigit d → is_whitespace d ≡ false
unfolding is_whitespace
digit_no_space d h = ground arith

pub trim_end-digits : (ds : Text) → Forall IsDigit ds → trim_end ds ≡ ds
unfolding trim_end
trim_end-digits [] h = refl
trim_end-digits (d ∷ ds) h = rw (digit_no_space d h.0, trim_end-digits ds h.1) refl

all_digits-IsDigit : (ds : Text) → Forall IsDigit ds → all_digits ds ≡ true
unfolding all_digits is_ascii_digit
all_digits-IsDigit [] h = refl
all_digits-IsDigit (d ∷ ds) h = ground (arith, all_digits-IsDigit ds h.1)

u16_of-eq :
    (ds : Text)
    → ¬ (ds ≡ [])
    → Forall IsDigit ds
    → digits_value 0 ds < 65536
    → parse_u16 ds ≡ some (digits_value 0 ds)
unfolding parse_u16 u16_of
u16_of-eq [] n h k = absurd (n refl)
u16_of-eq (d ∷ ds) n h k = ground (arith, all_digits-IsDigit (d ∷ ds) h)

pub print_ℕ-IsDigit : (n : ℕ) → Forall IsDigit (print_ℕ n)
unfolding print_ℕ
print_ℕ-IsDigit n = print_digits-IsDigit (suc n) n

pub print_ℕ_cons : (n : ℕ) → (d : ℕ) × (ds : Text) × (print_ℕ n ≡ d ∷ ds)
unfolding print_ℕ
print_ℕ_cons n = cons_of (print_digits (suc n) n) (print_digits_ne n n)
  where
    cons_of : (xs : Text) → ¬ (xs ≡ []) → (d : ℕ) × (ds : Text) × (xs ≡ d ∷ ds)
    cons_of [] h = absurd (h refl)
    cons_of (x ∷ xs) h = (x, xs, refl)

pub parse_u16-print_ℕ : (n : ℕ) → n < 65536 → parse_u16 (print_ℕ n) ≡ some n
unfolding print_ℕ
parse_u16-print_ℕ n h =
    let v = digits_value-print_digits (suc n) n (omega arith) in
    let ds = print_digits (suc n) n in
    u16_of-eq ds (print_digits_ne n n) (print_digits-IsDigit (suc n) n) (omega (arith, v))
    ∙ ap some v

-- No `x` among the characters.
abbrev pub Lacks : ℕ → Text → Type 0
Lacks x s = Forall (λ c. (c == x) ≡ false) s

pub split_first-append :
    (x : ℕ) (h rest : Text) → Lacks x h → split_first x (h ++ (x ∷ rest)) ≡ some (h, rest)
unfolding split_first
split_first-append x [] rest l = ground arith
split_first-append x (c ∷ h) rest l = rw (l.0, split_first-append x h rest l.1) refl

split_last-Lacks : (x : ℕ) (s : Text) → Lacks x s → split_last x s ≡ none
unfolding split_last
split_last-Lacks x [] l = refl
split_last-Lacks x (c ∷ s) l = rw (split_last-Lacks x s l.1, l.0) refl

pub split_last-append :
    (x : ℕ) (h rest : Text) → Lacks x rest → split_last x (h ++ (x ∷ rest)) ≡ some (h, rest)
unfolding split_last
split_last-append x [] rest l = rw (split_last-Lacks x rest l) (ground arith)
split_last-append x (c ∷ h) rest l = rw (split_last-append x h rest l) refl

pub colon_count-append : (s t : Text) → colon_count (s ++ t) ≡ colon_count s + colon_count t
unfolding colon_count
colon_count-append [] t = omega arith
colon_count-append (c ∷ s) t = ground (arith, colon_count-append s t)

pub colon_count-Lacks : (s : Text) → Lacks b':' s → colon_count s ≡ 0
unfolding colon_count
colon_count-Lacks [] l = refl
colon_count-Lacks (c ∷ s) l = ground (arith, colon_count-Lacks s l.1)

pub digits-Lacks : (ds : Text) → Forall IsDigit ds → Lacks b':' ds
digits-Lacks [] h = tt
digits-Lacks (d ∷ ds) h = (ground arith, digits-Lacks ds h.1)
