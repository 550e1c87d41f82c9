-- ===== src/NetUtil/Local.antt =====
-- The IPv4 addresses that rust-core/bedterm-ios/src/net_util.rs counts as local.
use bed_term.Prelude.{
  ℕ, ◌+◌, ◌*◌, ◌/◌, ◌^◌, ◌<◌, ◌≡◌, refl, ap, Bool, false, ◌&&◌, ◌||◌, [], ◌∷◌, ◌++◌, leb, ◌==◌,
  if◌then◌else◌, arith, Forall-append, Forall, subst,
}
use bed_term.Prelude.Text.{codes, text_eq, Text, is_empty}
use bed_term.Prelude.Decimal.{print_ℕ, IsDigit}
use bed_term.ConnectForm.Address.{is_whitespace, trim_end, trim}
use bed_term.ConnectForm.Address.Trim.{
  IsSpace, trim_padded, print_ℕ-IsDigit, print_ℕ_cons, trim_end_behind, trim_end-digits,
  digit_no_space,
}
use bed_term.NetUtil.{Ipv4Addr, parse_ipv4, is_lan_ipv4, ends_with, is_lan_host}
use bed_term.NetUtil.Ipv4.{dotted, IsIpv4, read_ipv4_addr-dotted, length-dotted}

-- A digit or a dot.
abbrev IsLow : ℕ → Type 0
IsLow c = c < 58

IsLow-digits : (ds : Text) → Forall IsDigit ds → Forall IsLow ds
IsLow-digits [] h = tt
IsLow-digits (d ∷ ds) h = (omega (arith, h.0), IsLow-digits ds h.1)

IsLow-octet : (n : ℕ) (rest : Text) → Forall IsLow rest → Forall IsLow (print_ℕ n ++ (b'.' ∷ rest))
IsLow-octet n rest h =
    Forall-append IsLow (print_ℕ n) (b'.' ∷ rest) (IsLow-digits (print_ℕ n) (print_ℕ-IsDigit n))
      (omega arith, h)

dotted-IsLow : (v4 : Ipv4Addr) → Forall IsLow (dotted v4)
unfolding dotted
dotted-IsLow v4 = IsLow-octet v4.one _ (
    IsLow-octet v4.two _
      (IsLow-octet v4.three _ (IsLow-digits (print_ℕ v4.four) (print_ℕ-IsDigit v4.four))))

low_no_suffix : (s : Text) → Forall IsLow s → text_eq s (codes ".local") ≡ false
unfolding text_eq
low_no_suffix [] h = refl
low_no_suffix (c ∷ []) h = ground arith
low_no_suffix (c ∷ d ∷ s) h = ground (arith, h.1.0)

low_not_local : (s : Text) → Forall IsLow s → ends_with s (codes ".local") ≡ false
unfolding ends_with
low_not_local [] h = low_no_suffix [] h
low_not_local (c ∷ s) h = rw (low_no_suffix (c ∷ s) h, low_not_local s h.1) refl

low_not_localhost : (s : Text) → Forall IsLow s → text_eq s (codes "localhost") ≡ false
unfolding text_eq
low_not_localhost [] h = refl
low_not_localhost (c ∷ s) h = ground (arith, h.0)

-- The number of an address, in which the networks are ranges.
abbrev pub address : Ipv4Addr → ℕ
address v4 = ((v4.one * 256 + v4.two) * 256 + v4.three) * 256 + v4.four

-- 10/8, 172.16/12, 192.168/16 and 169.254/16.
abbrev pub in_local_network : ℕ → Bool
in_local_network n =
    n / 2 ^ 24 == 10
    || n / 2 ^ 20 == 172 * 16 + 1
    || n / 2 ^ 16 == 192 * 256 + 168
    || n / 2 ^ 16 == 169 * 256 + 254

networks :
    (a b : ℕ)
    → a < 256
    → b < 256
    → (if a == 127
        then false
        else (a == 10 || (a == 172 && leb 16 b && leb b 31) || (a == 192 && b == 168))
          || (a == 169 && b == 254))
      ≡ (a == 10
          || a * 16 + b / 16 == 172 * 16 + 1
          || a * 256 + b == 192 * 256 + 168
          || a * 256 + b == 169 * 256 + 254)
networks a b h k = ground arith

is_lan_ipv4-address : (v4 : Ipv4Addr) → IsIpv4 v4 → is_lan_ipv4 v4 ≡ in_local_network (address v4)
unfolding is_lan_ipv4
is_lan_ipv4-address v4 h =
    let b1 = h.one_byte in
    let b2 = h.two_byte in
    let b3 = h.three_byte in
    let b4 = h.four_byte in
    let by24 : address v4 / 2 ^ 24 ≡ v4.one = omega (arith, b1, b2, b3, b4) in
    let by20 : address v4 / 2 ^ 20 ≡ v4.one * 16 + v4.two / 16 = omega (arith, b1, b2, b3, b4) in
    let by16 : address v4 / 2 ^ 16 ≡ v4.one * 256 + v4.two = omega (arith, b1, b2, b3, b4) in
    rw (by24, by20, by16) (networks v4.one v4.two b1 b2)

trim_end-octet :
    (n : ℕ) (s : Text)
    → trim_end s ≡ s
    → trim_end (print_ℕ n ++ (b'.' ∷ s)) ≡ print_ℕ n ++ (b'.' ∷ s)
trim_end-octet n s h =
    trim_end_behind (print_ℕ n) b'.' s (unfold trim_end is_whitespace in rw h refl)

trim_end-dotted : (v4 : Ipv4Addr) → trim_end (dotted v4) ≡ dotted v4
unfolding dotted
trim_end-dotted v4 = trim_end-octet v4.one _ (
    trim_end-octet v4.two _
      (trim_end-octet v4.three _ (trim_end-digits (print_ℕ v4.four) (print_ℕ-IsDigit v4.four))))

-- The text of an address begins with a digit.
dotted_cons : (v4 : Ipv4Addr) → (c : ℕ) × (cs : Text) × (dotted v4 ≡ c ∷ cs) × IsDigit c
unfolding dotted
dotted_cons v4 =
    let (c, cs, e) = print_ℕ_cons v4.one in
    let digits : Forall IsDigit (c ∷ cs) = subst (Forall IsDigit) e (print_ℕ-IsDigit v4.one) in
    let behind =
      b'.' ∷ (print_ℕ v4.two ++ (b'.' ∷ (print_ℕ v4.three ++ (b'.' ∷ print_ℕ v4.four)))) in
    (c, cs ++ behind, ap (λ (s : Text). s ++ behind) e, digits.0)

trim-dotted :
    (before after : Text) (v4 : Ipv4Addr)
    → Forall IsSpace before
    → Forall IsSpace after
    → trim (before ++ (dotted v4 ++ after)) ≡ dotted v4
trim-dotted before after v4 hb ha =
    let (c, cs, e, d) = dotted_cons v4 in
    let stays : trim_end (c ∷ cs) ≡ c ∷ cs =
      subst (λ (s : Text). trim_end s ≡ s) e (trim_end-dotted v4) in
    rw e (trim_padded before after c cs hb ha (digit_no_space c d) stays)

-- The dotted text of an IPv4 address, with any white space around it, is a host of the local
-- network exactly where the number of the address lies in 10/8, 172.16/12, 192.168/16 or
-- 169.254/16.
pub is_lan_host-dotted :
    (before after : Text) (v4 : Ipv4Addr)
    → Forall IsSpace before
    → Forall IsSpace after
    → IsIpv4 v4
    → is_lan_host (before ++ (dotted v4 ++ after)) ≡ in_local_network (address v4)
unfolding is_lan_host parse_ipv4
is_lan_host-dotted before after v4 hb ha h =
    let low = dotted-IsLow v4 in
    let given : is_empty (dotted v4) ≡ false = let (c, cs, e, d) = dotted_cons v4 in rw e refl in
    rw (trim-dotted before after v4 hb ha, given, low_not_localhost _ low, low_not_local _ low)
      (rw (length-dotted v4 h, read_ipv4_addr-dotted v4 h) (is_lan_ipv4-address v4 h))
