-- ===== src/ConnectForm/Uuid.antt =====
-- `uuid_v4` and `fill_random` of rust-core/bedterm-ios/src/connect_form_vm.rs. The time and the counter
-- are parameters. `b & 0x0F | 0x40` is `b % 16 + 64`, `b & 0x3F | 0x80` is `b % 64 + 128`.
pub mod Shape
use bed_term.Prelude.{
  ℕ, zero, suc, ◌+◌, ◌-◌, ◌*◌, ◌/◌, ◌%◌, ◌^◌, [], ◌∷◌, ◌++◌, ltb, if◌then◌else◌, Bytes, take, drop,
}
use bed_term.Prelude.Text.{Text}

-- `wrapping_mul(0x5851_F42D_4C95_7F2D).wrapping_add(1)`.
unfoldable pub next_state : ℕ → ℕ
next_state state = (state * 0x5851_F42D_4C95_7F2D % 2 ^ 64 + 1) % 2 ^ 64

-- The loop over a buffer of `n` bytes.
unfoldable pub random_bytes : ℕ → ℕ → Bytes
random_bytes zero state = []
random_bytes (suc n) state =
    let next = next_state state in (next / 2 ^ 33 % 256) ∷ random_bytes n next

unfoldable pub fill_random : ℕ → ℕ → ℕ → Bytes
fill_random n nanos bump = random_bytes n ((nanos * 0x9E37_79B9_7F4A_7C15 % 2 ^ 64 + bump) % 2 ^ 64)

-- `bytes[i] = f(bytes[i])`.
abbrev pub at_index : ℕ → (ℕ → ℕ) → Bytes → Bytes
at_index i f [] = []
at_index zero f (b ∷ bs) = f b ∷ bs
at_index (suc i) f (b ∷ bs) = b ∷ at_index i f bs

unfoldable pub upper_hex : ℕ → ℕ
upper_hex d = if ltb d 10 then b'0' + d else b'A' + (d - 10)

-- `{:02X}` of each byte.
unfoldable pub hex_text : Bytes → Text
hex_text [] = []
hex_text (b ∷ bs) = upper_hex (b / 16) ∷ upper_hex (b % 16) ∷ hex_text bs

unfoldable pub stamped : Bytes → Bytes
stamped bytes = at_index 8 (λ b. b % 64 + 128) (at_index 6 (λ b. b % 16 + 64) bytes)

-- The `format!`: a dash behind the fourth byte, the sixth, the eighth and the tenth.
unfoldable pub dashed : Bytes → Text
dashed bytes =
    hex_text (take 4 bytes)
    ++ (b'-'
        ∷ (hex_text (take 2 (drop 4 bytes))
            ++ (b'-'
                ∷ (hex_text (take 2 (drop 6 bytes))
                    ++ (b'-'
                        ∷ (hex_text (take 2 (drop 8 bytes))
                            ++ (b'-' ∷ hex_text (drop 10 bytes))))))))

unfoldable pub uuid_v4 : ℕ → ℕ → Text
uuid_v4 nanos bump = dashed (stamped (fill_random 16 nanos bump))
