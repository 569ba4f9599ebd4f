-- ===== src/Base64/Encoder/Rendering.antt =====
-- What `b64meta_encode` of src/base64.c writes, as digits to the base 64 with line ends.
use lua_conmanorg.Base64.Object.{Base64, transtable_at}
use lua_conmanorg.Base64.Encoder.{padding, encode_loop, encode}
use lua_conmanorg.Base64.Sextets.{
  last_sextet_b, last_sextet_c, sextet_b_lem, sextet_c_lem, sextet_d_lem,
}
use lua_conmanorg.Prelude.{
  ℕ, ◌+◌, ◌*◌, ◌/◌, ◌%◌, ◌^◌, ◌<◌, Bool, List, [], ◌∷◌, ◌++◌, leb, if◌then◌else◌, All, ◌≡◌, refl,
  arith, ok,
}

abbrev pub IsByte : ℕ → Type 0
IsByte x = x < 256

-- The character of digit `k`, counted from the lowest, of `v` to the base 64.
abbrev pub digit : Base64 → ℕ → ℕ → ℕ
digit b64 k v = transtable_at b64 (v / 64 ^ k % 64)

abbrev pub line_end : Bool → List ℕ
line_end full = if full then b'\n' ∷ [] else []

-- Whether the group that brings the line to `len'` characters ends it.
abbrev pub ends_line : Base64 → ℕ → Bool
ends_line b64 len' = leb b64.len len'

-- Three bytes are a number below 2^24, written with four digits; one or two bytes at the end
-- are shifted up to whole digits.
unfoldable pub rendering : Base64 → ℕ → List ℕ → List ℕ
rendering b64 len [] = []
rendering b64 len (x ∷ []) =
    let v = x * 16 in digit b64 1 v ∷ digit b64 0 v ∷ padding b64 ++ padding b64
rendering b64 len (x ∷ y ∷ []) =
    let v = (x * 256 + y) * 4 in digit b64 2 v ∷ digit b64 1 v ∷ digit b64 0 v ∷ padding b64
rendering b64 len (x ∷ y ∷ z ∷ rest) =
    let v = x * 65536 + y * 256 + z in
    let len' = (len + 4) % 2 ^ 64 in
    let full = ends_line b64 len' in
    digit b64 3 v ∷ digit b64 2 v ∷ digit b64 1 v ∷ digit b64 0 v ∷ line_end full
    ++ rendering b64 (if full then 0 else len') rest

encode_loop-rendering :
    (b64 : Base64) (len : ℕ) (bytes : List ℕ)
    → All IsByte bytes
    → encode_loop b64 len bytes ≡ ok (rendering b64 len bytes)
unfolding encode_loop rendering
encode_loop-rendering b64 len [] h = refl
encode_loop-rendering b64 len (x ∷ []) (hx, _) = ground (arith, last_sextet_b x hx)
encode_loop-rendering b64 len (x ∷ y ∷ []) (hx, (hy, _)) =
    ground (arith, sextet_b_lem x y hx hy, last_sextet_c y hy)
encode_loop-rendering b64 len (x ∷ y ∷ z ∷ rest) (hx, (hy, (hz, h))) =
    let len' = (len + 4) % 2 ^ 64 in
    ground (
      arith,
      sextet_b_lem x y hx hy,
      sextet_c_lem y z hy hz,
      sextet_d_lem z,
      encode_loop-rendering b64 (if ends_line b64 len' then 0 else len') rest h,
    )

-- On bytes no assertion of `encode` fails, and it writes the rendering.
pub encode-rendering :
    (b64 : Base64) (bytes : List ℕ)
    → All IsByte bytes
    → encode b64 bytes ≡ ok (rendering b64 0 bytes)
unfolding encode
encode-rendering b64 bytes h = encode_loop-rendering b64 0 bytes h
