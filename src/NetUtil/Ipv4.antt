-- ===== src/NetUtil/Ipv4.antt =====
-- That the parser of `Ipv4Addr`, for rust-core/bedterm-ios/src/net_util.rs, reads the text of an
-- address.
use bed_term.Prelude.{
  ℕ, zero, suc, ◌-◌, ◌<◌, ◌≤◌, ◌≡◌, refl, ap, Bool, true, false, ◌&&◌, some, List, [], ◌∷◌, ◌++◌,
  map, length, leb, ◌==◌, arith, append-nil, length-append, Forall, Bool-cases, inl, inr, subst,
}
use bed_term.Prelude.Text.{Text}
use bed_term.Prelude.Decimal.{is_ascii_digit, print_ℕ, print_digits, IsDigit}
use bed_term.ConnectForm.Address.Trim.{print_ℕ-IsDigit}
use bed_term.NetUtil.{
  to_digit, span_number, number_value, is_number, read_number, read_given_char, Ipv4Addr,
  read_octet, read_ipv4_addr,
}

abbrev digit_values : Text → List ℕ
digit_values = map (λ c. c - 48)

-- What stands behind an octet: the end, or a dot.
abbrev IsStop : Text → Type 0
IsStop [] = Unit
IsStop (c ∷ cs) = c ≡ b'.'

to_digit-IsDigit : (d : ℕ) → IsDigit d → to_digit 10 d ≡ some (d - 48)
unfolding to_digit is_ascii_digit
to_digit-IsDigit d h = ground arith

span_number-digits :
    (ds rest : Text)
    → Forall IsDigit ds
    → IsStop rest
    → span_number 10 (ds ++ rest) ≡ (digit_values ds, rest)
unfolding span_number
span_number-digits [] [] h k = refl
span_number-digits [] (c ∷ cs) h k = rw k (unfold to_digit is_ascii_digit in refl)
span_number-digits (d ∷ ds) rest h k =
    rw (to_digit-IsDigit d h.0, span_number-digits ds rest h.1 k) refl

-- Whether the decimal text of `n` is read as an octet, as `n`.
abbrev reads_as : ℕ → Bool
reads_as n =
    let ds = digit_values (print_ℕ n) in is_number 10 3 false 256 ds && number_value 10 0 ds == n

abbrev all_read : ℕ → Bool
all_read zero = true
all_read (suc n) = all_read n && reads_as n

all_octets : all_read 256 ≡ true
unfolding is_number print_ℕ print_digits
all_octets = refl

both_left : (a b : Bool) → (a && b) ≡ true → a ≡ true
both_left a b h = ground arith

both_right : (a b : Bool) → (a && b) ≡ true → b ≡ true
both_right a b h = ground arith

all_read-reads_as : (m n : ℕ) → all_read m ≡ true → n < m → reads_as n ≡ true
all_read-reads_as zero n a h = absurd (omega arith)
all_read-reads_as (suc m) n a h = elim (Bool-cases (n == m)) [
  | inl e ↦
      subst (λ (k : ℕ). reads_as k ≡ true) (ground (arith, e))
        (both_right (all_read m) (reads_as m) a)
  | inr e ↦ all_read-reads_as m n (both_left (all_read m) (reads_as m) a) (ground (arith, e, h))
]

octet_read :
    (n : ℕ)
    → n < 256
    → let ds = digit_values (print_ℕ n) in
      (is_number 10 3 false 256 ds ≡ true) × (number_value 10 0 ds ≡ n)
octet_read n h =
    let ds = digit_values (print_ℕ n) in
    let reads = all_read-reads_as 256 n all_octets h in
    let value = both_right (is_number 10 3 false 256 ds) (number_value 10 0 ds == n) reads in
    (both_left _ (number_value 10 0 ds == n) reads, ground (arith, value))

read_octet-print_ℕ :
    (n : ℕ) (rest : Text) → n < 256 → IsStop rest → read_octet (print_ℕ n ++ rest) ≡ some (n, rest)
unfolding read_octet read_number
read_octet-print_ℕ n rest h k =
    let (fits, value) = octet_read n h in
    rw (span_number-digits (print_ℕ n) rest (print_ℕ-IsDigit n) k, fits, value) refl

-- The dotted decimal text of an address.
unfoldable pub dotted : Ipv4Addr → Text
dotted v4 =
    print_ℕ v4.one
    ++ (b'.' ∷ (print_ℕ v4.two ++ (b'.' ∷ (print_ℕ v4.three ++ (b'.' ∷ print_ℕ v4.four)))))

pub record IsIpv4 (v4 : Ipv4Addr) : Type 0 where
  pub one_byte : v4.one < 256
  pub two_byte : v4.two < 256
  pub three_byte : v4.three < 256
  pub four_byte : v4.four < 256

read_octet-last : (n : ℕ) → n < 256 → read_octet (print_ℕ n) ≡ some (n, [])
read_octet-last n h =
    subst (λ (s : Text). read_octet s ≡ some (n, [])) (append-nil (print_ℕ n))
      (read_octet-print_ℕ n [] h tt)

pub read_ipv4_addr-dotted : (v4 : Ipv4Addr) → IsIpv4 v4 → read_ipv4_addr (dotted v4) ≡ some (v4, [])
unfolding read_ipv4_addr dotted read_given_char
read_ipv4_addr-dotted v4 h =
    let s3 = b'.' ∷ print_ℕ v4.four in
    let s2 = b'.' ∷ (print_ℕ v4.three ++ s3) in
    let s1 = b'.' ∷ (print_ℕ v4.two ++ s2) in
    rw (read_octet-print_ℕ v4.one s1 h.one_byte refl) (
      rw (read_octet-print_ℕ v4.two s2 h.two_byte refl) (
        rw (read_octet-print_ℕ v4.three s3 h.three_byte refl)
          (rw (read_octet-last v4.four h.four_byte) refl)))

length-digit_values : (s : Text) → length (digit_values s) ≡ length s
length-digit_values [] = refl
length-digit_values (c ∷ cs) = ap suc (length-digit_values cs)

length-octet : (n : ℕ) → n < 256 → length (print_ℕ n) ≤ 3
unfolding is_number
length-octet n h = ground (arith, (octet_read n h).0, length-digit_values (print_ℕ n))

pub length-dotted : (v4 : Ipv4Addr) → IsIpv4 v4 → leb (length (dotted v4)) 15 ≡ true
unfolding dotted
length-dotted v4 h =
    let n4 = length-octet v4.four h.four_byte in
    let n3 = length-octet v4.three h.three_byte in
    let n2 = length-octet v4.two h.two_byte in
    let n1 = length-octet v4.one h.one_byte in
    let s3 = b'.' ∷ print_ℕ v4.four in
    let s2 = b'.' ∷ (print_ℕ v4.three ++ s3) in
    let s1 = b'.' ∷ (print_ℕ v4.two ++ s2) in
    rw
      (
        length-append (print_ℕ v4.one) s1,
        length-append (print_ℕ v4.two) s2,
        length-append (print_ℕ v4.three) s3,
      )
      (ground (arith, n1, n2, n3, n4))
