-- ===== src/NetUtil.antt =====
-- rust-core/bedterm-ios/src/net_util.rs: which hosts are on the local network, with the parsers of
-- `Ipv4Addr` and `Ipv6Addr` of the standard library.
pub mod Ipv4
pub mod Local
use bed_term.Prelude.{
  ℕ, zero, suc, ◌+◌, ◌-◌, ◌*◌, ◌/◌, Bool, true, false, not, ◌&&◌, ◌||◌, Option, none, some, List,
  [], ◌∷◌, ◌++◌, length, leb, ltb, ◌==◌, if◌then◌else◌, ◌>>=◌,
}
use bed_term.Prelude.Text.{codes, text_eq, Text, is_empty}
use bed_term.Prelude.Decimal.{is_ascii_digit}
use bed_term.ConnectForm.Address.{trim}

-- `char::to_digit`.
unfoldable pub to_digit : ℕ → ℕ → Option ℕ
to_digit radix c =
    let v =
      if is_ascii_digit c
      then c - 48
      else if leb b'a' c && leb c b'z'
      then c - 87
      else if leb b'A' c && leb c b'Z'
      then c - 55
      else 36 in
    if ltb v radix then some v else none

abbrev pub push_digit : Option ℕ → Text → List ℕ × Text → List ℕ × Text
push_digit none s later = ([], s)
push_digit (some d) s later = (d ∷ later.0, later.1)

-- The digits at the front, and the rest.
unfoldable pub span_number : ℕ → Text → List ℕ × Text
span_number radix [] = ([], [])
span_number radix (c ∷ cs) = push_digit (to_digit radix c) (c ∷ cs) (span_number radix cs)

abbrev pub number_value : ℕ → ℕ → List ℕ → ℕ
number_value radix acc [] = acc
number_value radix acc (d ∷ ds) = number_value radix (acc * radix + d) ds

abbrev pub leads_zero : List ℕ → Bool
leads_zero (zero ∷ _ ∷ _) = true
leads_zero _ = false

-- `Parser::read_number`, with the largest number of digits, whether zeros may lead, and the first
-- number that is too large.
unfoldable pub is_number : ℕ → ℕ → Bool → ℕ → List ℕ → Bool
is_number radix max_digits zero_prefix bound ds =
    not (is_empty ds)
    && leb (length ds) max_digits
    && (zero_prefix || not (leads_zero ds))
    && ltb (number_value radix 0 ds) bound

unfoldable pub read_number : ℕ → ℕ → Bool → ℕ → Text → Option (ℕ × Text)
read_number radix max_digits zero_prefix bound s =
    let (ds, rest) = span_number radix s in
    if is_number radix max_digits zero_prefix bound ds
    then some (number_value radix 0 ds, rest)
    else none

unfoldable pub read_given_char : ℕ → Text → Option Text
read_given_char c [] = none
read_given_char c (x ∷ xs) = if x == c then some xs else none

pub record Ipv4Addr : Type 0 where
  pub one : ℕ
  pub two : ℕ
  pub three : ℕ
  pub four : ℕ

unfoldable pub read_octet : Text → Option (ℕ × Text)
read_octet = read_number 10 3 false 256

unfoldable pub read_ipv4_addr : Text → Option (Ipv4Addr × Text)
read_ipv4_addr s = do
  a ← read_octet s
  s1 ← read_given_char b'.' a.1
  b ← read_octet s1
  s2 ← read_given_char b'.' b.1
  c ← read_octet s2
  s3 ← read_given_char b'.' c.1
  d ← read_octet s3
  some (record { one = a.0; two = b.0; three = c.0; four = d.0 }, d.1)

-- `Parser::parse_with`: nothing may be left.
abbrev pub at_end : {A : Type 0} → Option (A × Text) → Option A
at_end none = none
at_end (some (a, rest)) = if is_empty rest then some a else none

unfoldable pub parse_ipv4 : Text → Option Ipv4Addr
parse_ipv4 s = if leb (length s) 15 then at_end (read_ipv4_addr s) else none

-- `Parser::read_separator`.
abbrev pub separated : {A : Type 0} → Bool → (Text → Option (A × Text)) → Text → Option (A × Text)
separated first read s = if first then read s else (read_given_char b':' s >>= read)

-- `read_groups`, for as many groups as may follow: the groups, and whether they end in an IPv4
-- address, which takes two.
unfoldable pub read_groups : ℕ → Bool → Text → List ℕ × Bool × Text
read_groups zero first s = ([], false, s)
read_groups (suc n) first s =
    let embedded = if ltb 0 n then separated first read_ipv4_addr s else none in
    elim embedded [
      | some (v4, rest) ↦ ((v4.one * 256 + v4.two) ∷ (v4.three * 256 + v4.four) ∷ [], true, rest)
      | none ↦ elim (separated first (read_number 16 4 true 65536) s) [
        | none ↦ ([], false, s)
        | some (group, rest) ↦
            let later = read_groups n false rest in (group ∷ later.0, later.1, later.2)
      ]
    ]

abbrev pub zeros : ℕ → List ℕ
zeros zero = []
zeros (suc n) = 0 ∷ zeros n

unfoldable pub read_ipv6_addr : Text → Option (List ℕ × Text)
read_ipv6_addr s =
    let (head, head_ipv4, rest) = read_groups 8 true s in
    if length head == 8 then some (head, rest) else if head_ipv4 then none else (do
      s1 ← read_given_char b':' rest
      s2 ← read_given_char b':' s1
      let (tail, tail_ipv4, left) = read_groups (7 - length head) true s2
      some (head ++ (zeros (8 - length head - length tail) ++ tail), left))

unfoldable pub parse_ipv6 : Text → Option (List ℕ)
parse_ipv6 s = at_end (read_ipv6_addr s)

unfoldable pub is_lan_ipv4 : Ipv4Addr → Bool
is_lan_ipv4 v4 =
    if v4.one == 127
    then false
    else (v4.one == 10
        || (v4.one == 172 && leb 16 v4.two && leb v4.two 31)
        || (v4.one == 192 && v4.two == 168))
      || (v4.one == 169 && v4.two == 254)

abbrev pub loopback_ipv6 : List ℕ
loopback_ipv6 = zeros 7 ++ (1 ∷ [])

-- The masks keep the first ten bits, and the first seven.
unfoldable pub is_lan_ipv6 : List ℕ → Bool
is_lan_ipv6 [] = false
is_lan_ipv6 (segment ∷ more) =
    if text_eq (segment ∷ more) loopback_ipv6
    then false
    else segment / 64 * 64 == 0xFE80 || segment / 512 * 512 == 0xFC00

unfoldable pub ends_with : Text → Text → Bool
ends_with [] suffix = text_eq [] suffix
ends_with (c ∷ cs) suffix = text_eq (c ∷ cs) suffix || ends_with cs suffix

abbrev pub is_lan_address : Option Ipv4Addr → Option (List ℕ) → Bool
is_lan_address (some v4) v6 = is_lan_ipv4 v4
is_lan_address none (some v6) = is_lan_ipv6 v6
is_lan_address none none = false

unfoldable pub is_lan_host : Text → Bool
is_lan_host host =
    let trimmed = trim host in
    if is_empty trimmed
    then false
    else if text_eq trimmed (codes "localhost")
    then false
    else if ends_with trimmed (codes ".local")
    then true
    else is_lan_address (parse_ipv4 trimmed) (parse_ipv6 trimmed)
