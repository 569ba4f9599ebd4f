-- ===== src/Base64/RoundTrip/Bytes.antt =====
-- The digits of one, two or three bytes, put together by the decoder.
use lua_conmanorg.Base64.Readout.{Quad}
use lua_conmanorg.Base64.Decoder.{extraneous, group_bytes}
use lua_conmanorg.Base64.Sextets.{byte_a_lem, byte_b_lem, byte_c_lem}
use lua_conmanorg.Prelude.{ℕ, ◌+◌, ◌*◌, ◌/◌, ◌%◌, ◌^◌, ◌<◌, false, [], ◌∷◌, ◌≡◌, arith}

-- The digits of three bytes give the bytes back, and those of one or two leave nothing over.
abbrev pub quad_of : ℕ → Quad
quad_of v = record {
  b0 = v / 64 ^ 3 % 64;
  b1 = v / 64 ^ 2 % 64;
  b2 = v / 64 ^ 1 % 64;
  b3 = v / 64 ^ 0 % 64;
}

pub three_bytes :
    (x y z : ℕ)
    → x < 256
    → y < 256
    → z < 256
    → group_bytes 0 (quad_of (x * 65536 + y * 256 + z)) ≡ x ∷ y ∷ z ∷ []
three_bytes x y z hx hy hz =
    let q = quad_of (x * 65536 + y * 256 + z) in
    ground (
      arith,
      byte_a_lem q (omega arith) (omega arith),
      byte_b_lem q (omega arith) (omega arith),
      byte_c_lem q (omega arith) (omega arith),
    )

abbrev pub quad_of_two : ℕ → Quad
quad_of_two v = record { b0 = v / 64 ^ 2 % 64; b1 = v / 64 ^ 1 % 64; b2 = v / 64 ^ 0 % 64; b3 = 0 }

pub two_bytes :
    (x y : ℕ)
    → x < 256
    → y < 256
    → (group_bytes 1 (quad_of_two ((x * 256 + y) * 4)) ≡ x ∷ y ∷ [])
      × (extraneous 1 (quad_of_two ((x * 256 + y) * 4)) ≡ false)
two_bytes x y hx hy =
    let q = quad_of_two ((x * 256 + y) * 4) in
    let a = byte_a_lem q (omega arith) (omega arith) in
    let b = byte_b_lem q (omega arith) (omega arith) in
    let c = byte_c_lem q (omega arith) (omega arith) in (ground (arith, a, b), ground (arith, c))

abbrev pub quad_of_one : ℕ → Quad
quad_of_one v = record { b0 = v / 64 ^ 1 % 64; b1 = v / 64 ^ 0 % 64; b2 = 0; b3 = 0 }

pub one_byte :
    (x : ℕ)
    → x < 256
    → (group_bytes 2 (quad_of_one (x * 16)) ≡ x ∷ [])
      × (extraneous 2 (quad_of_one (x * 16)) ≡ false)
one_byte x hx =
    let q = quad_of_one (x * 16) in
    let a = byte_a_lem q (omega arith) (omega arith) in
    let b = byte_b_lem q (omega arith) (omega arith) in
    let c = byte_c_lem q (omega arith) (omega arith) in (ground (arith, a), ground (arith, b, c))
