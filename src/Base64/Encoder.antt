-- ===== src/Base64/Encoder.antt =====
-- `b64meta_encode` of src/base64.c.
pub mod Rendering
pub mod Lines
use lua_conmanorg.Base64.Object.{u8, Base64, transtable_at}
use lua_conmanorg.Prelude.{
  ℕ, ◌+◌, ◌*◌, ◌/◌, ◌%◌, ◌^◌, bit_and, bit_or, List, [], ◌∷◌, ◌++◌, ltb, leb, ◌==◌, if◌then◌else◌,
  Outcome, ok, ◌>>=◌, ◌>>◌, assert,
}

-- The four groups of six bits, A to D, of `b64meta_encode`.
abbrev pub sextet_a : ℕ → ℕ
sextet_a x = x / 2 ^ 2

abbrev pub sextet_b : ℕ → ℕ → ℕ
sextet_b x y = u8 (bit_or (bit_and (x * 2 ^ 4) 0x30) (y / 2 ^ 4))

abbrev pub sextet_c : ℕ → ℕ → ℕ
sextet_c y z = u8 (bit_or (bit_and (y * 2 ^ 2) 0x3c) (z / 2 ^ 6))

abbrev pub sextet_d : ℕ → ℕ
sextet_d z = bit_and z 0x3f

-- `if (b64->pad) luaL_addchar(&b,b64->pad)`
abbrev pub padding : Base64 → List ℕ
padding b64 = if b64.pad == 0 then [] else b64.pad ∷ []

-- The loop of `b64meta_encode` at `len` characters of the line; a `size_t` wraps.
unfoldable pub encode_loop : Base64 → ℕ → List ℕ → Outcome (List ℕ)
encode_loop b64 len [] = ok []
encode_loop b64 len (x ∷ []) =
    let a = sextet_a x in
    let b = u8 (bit_and (x * 2 ^ 4) 0x30) in
    do
      assert (ltb a 64)
      assert (ltb b 64)
      ok (transtable_at b64 a ∷ transtable_at b64 b ∷ padding b64 ++ padding b64)
encode_loop b64 len (x ∷ y ∷ []) =
    let a = sextet_a x in
    let b = sextet_b x y in
    let c = u8 (bit_and (y * 2 ^ 2) 0x3c) in
    do
      assert (ltb a 64)
      assert (ltb b 64)
      assert (ltb c 64)
      ok (transtable_at b64 a ∷ transtable_at b64 b ∷ transtable_at b64 c ∷ padding b64)
encode_loop b64 len (x ∷ y ∷ z ∷ rest) =
    let a = sextet_a x in
    let b = sextet_b x y in
    let c = sextet_c y z in
    let d = sextet_d z in
    let len' = (len + 4) % 2 ^ 64 in
    let full = leb b64.len len' in
    do
      assert (ltb a 64)
      assert (ltb b 64)
      assert (ltb c 64)
      assert (ltb d 64)
      more ← encode_loop b64 (if full then 0 else len') rest
      ok (
          transtable_at b64 a
            ∷ transtable_at b64 b
            ∷ transtable_at b64 c
            ∷ transtable_at b64 d
            ∷ (if full then b'\n' ∷ [] else [])
          ++ more)

unfoldable pub encode : Base64 → List ℕ → Outcome (List ℕ)
encode b64 bytes = encode_loop b64 0 bytes
