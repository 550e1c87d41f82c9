-- ===== src/ConnectForm/Uuid/Shape.antt =====
-- The shape of the ids that rust-core/bedterm-ios/src/connect_form_vm.rs makes.
use bed_term.Prelude.{
  ℕ, zero, suc, ◌+◌, ◌/◌, ◌%◌, ◌≤◌, ◌<◌, ◌≡◌, refl, ap, ◌⊎◌, inl, some, [], ◌∷◌, ◌++◌, arith, Bytes,
  length, get_elem?, take, drop, Forall, Forall-append, IsByte,
}
use bed_term.Prelude.Text.{Text}
use bed_term.ConnectForm.Uuid.{
  next_state, random_bytes, fill_random, at_index, upper_hex, hex_text, stamped, dashed, uuid_v4,
}

abbrev pub IsUpperHex : ℕ → Type 0
IsUpperHex c = ((b'0' ≤ c) × (c ≤ b'9')) ⊎ ((b'A' ≤ c) × (c ≤ b'F'))

-- A dash, or an upper-case hexadecimal digit.
abbrev pub IsUuidChar : ℕ → Type 0
IsUuidChar c = (c ≡ b'-') ⊎ IsUpperHex c

-- `xxxxxxxx-xxxx-4xxx-Nxxx-xxxxxxxxxxxx`, where `N` is one of 8, 9, A and B.
pub record IsUuid (u : Text) : Type 0 where
  pub chars : Forall IsUuidChar u
  pub len : length u ≡ 36
  pub dashes :
      (get_elem? u 8 ≡ some b'-')
      × (get_elem? u 13 ≡ some b'-')
      × (get_elem? u 18 ≡ some b'-')
      × (get_elem? u 23 ≡ some b'-')
  pub version : get_elem? u 14 ≡ some b'4'
  pub variant :
      (c : ℕ) × (get_elem? u 19 ≡ some c) × ((c ≡ b'8') ⊎ (c ≡ b'9') ⊎ (c ≡ b'A') ⊎ (c ≡ b'B'))

upper_hex-IsUuidChar : (d : ℕ) → d < 16 → IsUuidChar (upper_hex d)
unfolding upper_hex
upper_hex-IsUuidChar d h = ground arith

hex_text-IsUuidChar : (bs : Bytes) → Forall IsByte bs → Forall IsUuidChar (hex_text bs)
unfolding hex_text
hex_text-IsUuidChar [] h = tt
hex_text-IsUuidChar (b ∷ bs) h = (
  upper_hex-IsUuidChar (b / 16) (omega (arith, h.0)),
  (upper_hex-IsUuidChar (b % 16) (omega arith), hex_text-IsUuidChar bs h.1),
)

Forall-take-drop : (n m : ℕ) (bs : Bytes) → Forall IsByte bs → Forall IsByte (take n (drop m bs))
Forall-take-drop zero m bs h = tt
Forall-take-drop (suc n) zero [] h = tt
Forall-take-drop (suc n) zero (b ∷ bs) h = (h.0, Forall-take-drop n zero bs h.1)
Forall-take-drop (suc n) (suc m) [] h = tt
Forall-take-drop (suc n) (suc m) (b ∷ bs) h = Forall-take-drop (suc n) m bs h.1

Forall-drop : (m : ℕ) (bs : Bytes) → Forall IsByte bs → Forall IsByte (drop m bs)
Forall-drop zero bs h = h
Forall-drop (suc m) [] h = tt
Forall-drop (suc m) (b ∷ bs) h = Forall-drop m bs h.1

at_index-IsByte :
    (i : ℕ) (f : ℕ → ℕ) (bs : Bytes)
    → ((b : ℕ) → b < 256 → f b < 256)
    → Forall IsByte bs
    → Forall IsByte (at_index i f bs)
at_index-IsByte i f [] k h = tt
at_index-IsByte zero f (b ∷ bs) k h = (k b h.0, h.1)
at_index-IsByte (suc i) f (b ∷ bs) k h = (h.0, at_index-IsByte i f bs k h.1)

stamped-IsByte : (bs : Bytes) → Forall IsByte bs → Forall IsByte (stamped bs)
unfolding stamped
stamped-IsByte bs h =
    at_index-IsByte 8 _ _ (λ b k. omega arith) (at_index-IsByte 6 _ bs (λ b k. omega arith) h)

-- A part of the text, and what follows the dash behind it.
join-IsUuidChar :
    (xs ys : Text)
    → Forall IsUuidChar xs
    → Forall IsUuidChar ys
    → Forall IsUuidChar (xs ++ (b'-' ∷ ys))
join-IsUuidChar xs ys h k = Forall-append IsUuidChar xs (b'-' ∷ ys) h (inl refl, k)

dashed-IsUuidChar : (bs : Bytes) → Forall IsByte bs → Forall IsUuidChar (dashed bs)
unfolding dashed
dashed-IsUuidChar bs h = join-IsUuidChar _ _ (hex_text-IsUuidChar _ (Forall-take-drop 4 0 bs h)) (
    join-IsUuidChar _ _ (hex_text-IsUuidChar _ (Forall-take-drop 2 4 bs h)) (
      join-IsUuidChar _ _ (hex_text-IsUuidChar _ (Forall-take-drop 2 6 bs h)) (
        join-IsUuidChar _ _ (hex_text-IsUuidChar _ (Forall-take-drop 2 8 bs h))
          (hex_text-IsUuidChar _ (Forall-drop 10 bs h)))))

random_bytes-IsByte : (n state : ℕ) → Forall IsByte (random_bytes n state)
unfolding random_bytes
random_bytes-IsByte zero state = tt
random_bytes-IsByte (suc n) state = (omega arith, random_bytes-IsByte n (next_state state))

variant_digit :
    (b : ℕ)
    → let c = upper_hex ((b % 64 + 128) / 16) in (c ≡ b'8') ⊎ (c ≡ b'9') ⊎ (c ≡ b'A') ⊎ (c ≡ b'B')
unfolding upper_hex
variant_digit b = ground arith

version_digit : (b : ℕ) → upper_hex ((b % 16 + 64) / 16) ≡ b'4'
unfolding upper_hex
version_digit b = ground arith

random-IsUuid : (state : ℕ) → IsUuid (dashed (stamped (random_bytes 16 state)))
random-IsUuid state =
    let all = dashed-IsUuidChar _ (stamped-IsByte _ (random_bytes-IsByte 16 state)) in
    unfold dashed stamped random_bytes hex_text in
    record {
      chars = all;
      len = refl;
      dashes = (refl, refl, refl, refl);
      version = ap some (version_digit _);
      variant = (_, refl, variant_digit _);
    }

-- The text of a UUID of version 4, whatever the clock says.
pub uuid_v4-IsUuid : (nanos bump : ℕ) → IsUuid (uuid_v4 nanos bump)
unfolding uuid_v4 fill_random
uuid_v4-IsUuid nanos bump = random-IsUuid _
