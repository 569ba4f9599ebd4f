-- ===== src/Base64/Sextets.antt =====
-- The shifts and masks of the encoder and the decoder in src/base64.c, as arithmetic.
use lua_conmanorg.Base64.Encoder.{sextet_b, sextet_c, sextet_d}
use lua_conmanorg.Base64.Decoder.{byte_a, byte_b, byte_c}
use lua_conmanorg.Base64.Readout.{Quad}
use lua_conmanorg.Base64.Object.{u8}
use lua_conmanorg.Prelude.{ℕ, ◌+◌, ◌*◌, ◌/◌, ◌%◌, ◌<◌, ◌^◌, bit_and, ◌≡◌, refl, arith}
use lua_conmanorg.Prelude.Bits.{bit_or_fields, bit_and_mask, agrees_below, agrees_below→eq}

mask_0x30 : (x : ℕ) → x < 256 → bit_and (x * 2 ^ 4) 0x30 ≡ x % 4 * 16
unfolding agrees_below
mask_0x30 x h = agrees_below→eq (λ x. bit_and (x * 2 ^ 4) 0x30) (λ x. x % 4 * 16) 256 x refl h

mask_0x3c : (y : ℕ) → y < 256 → bit_and (y * 2 ^ 2) 0x3c ≡ y % 16 * 4
unfolding agrees_below
mask_0x3c y h = agrees_below→eq (λ y. bit_and (y * 2 ^ 2) 0x3c) (λ y. y % 16 * 4) 256 y refl h

pub last_sextet_b : (x : ℕ) → x < 256 → u8 (bit_and (x * 2 ^ 4) 0x30) ≡ x % 4 * 16
last_sextet_b x h = omega (arith, mask_0x30 x h)

pub last_sextet_c : (y : ℕ) → y < 256 → u8 (bit_and (y * 2 ^ 2) 0x3c) ≡ y % 16 * 4
last_sextet_c y h = omega (arith, mask_0x3c y h)

pub sextet_b_lem : (x y : ℕ) → x < 256 → y < 256 → sextet_b x y ≡ x % 4 * 16 + y / 16
sextet_b_lem x y h k =
    rw (mask_0x30 x h) (omega (arith, bit_or_fields 4 (x % 4) (y / 2 ^ 4) (omega arith)))

pub sextet_c_lem : (y z : ℕ) → y < 256 → z < 256 → sextet_c y z ≡ y % 16 * 4 + z / 64
sextet_c_lem y z h k =
    rw (mask_0x3c y h) (omega (arith, bit_or_fields 2 (y % 16) (z / 2 ^ 6) (omega arith)))

pub sextet_d_lem : (z : ℕ) → sextet_d z ≡ z % 64
sextet_d_lem z = bit_and_mask 6 z

pub byte_a_lem : (q : Quad) → q.b0 < 64 → q.b1 < 64 → byte_a q ≡ q.b0 * 4 + q.b1 / 16
byte_a_lem q h k = omega (arith, bit_or_fields 2 q.b0 (q.b1 / 2 ^ 4) (omega arith))

pub byte_b_lem : (q : Quad) → q.b1 < 64 → q.b2 < 64 → byte_b q ≡ q.b1 % 16 * 16 + q.b2 / 4
byte_b_lem q h k = omega (arith, bit_or_fields 4 q.b1 (q.b2 / 2 ^ 2) (omega arith))

pub byte_c_lem : (q : Quad) → q.b2 < 64 → q.b3 < 64 → byte_c q ≡ q.b2 % 4 * 64 + q.b3
byte_c_lem q h k = omega (arith, bit_or_fields 6 q.b2 q.b3 k)
