-- ===== src/Base64/Decoder.antt =====
-- `b64meta_decode` of src/base64.c.
pub mod Termination
use lua_conmanorg.Base64.Object.{u8, Base64, peek}
use lua_conmanorg.Base64.Readout.{took, refused, Quad, readout4}
use lua_conmanorg.Prelude.{
  ℕ, zero, suc, ◌*◌, ◌/◌, ◌^◌, bit_or, Bool, not, ◌&&◌, ◌||◌, Option, none, some, List, [], ◌∷◌,
  ◌++◌, ltb, leb, ◌==◌, if◌then◌else◌, length, lua_error, assertion, out_of_fuel, Outcome, ok, stop,
}

-- `ac`, `bc` and `cc`, the three bytes of a group.
abbrev pub byte_a : Quad → ℕ
byte_a q = u8 (bit_or (q.b0 * 2 ^ 2) (q.b1 / 2 ^ 4))

abbrev pub byte_b : Quad → ℕ
byte_b q = u8 (bit_or (q.b1 * 2 ^ 4) (q.b2 / 2 ^ 2))

abbrev pub byte_c : Quad → ℕ
byte_c q = u8 (bit_or (q.b2 * 2 ^ 6) q.b3)

-- The test of strict mode: the bits that `skip` padding characters leave over are not 0.
abbrev pub extraneous : ℕ → Quad → Bool
extraneous skip q =
    (skip == 2 && (not (byte_b q == 0) || not (byte_c q == 0)))
    || (skip == 1 && not (byte_c q == 0))

-- What a group adds to the buffer.
abbrev pub group_bytes : ℕ → Quad → List ℕ
group_bytes skip q =
    byte_a q ∷ (if ltb skip 2 then byte_b q ∷ [] else [])
    ++ (if ltb skip 1 then byte_c q ∷ [] else [])

module _ (beyond : List ℕ) (b64 : Base64) where
  -- The loop of `b64meta_decode` with the buffer `b`; `ok none` is the return with no result.
  unfoldable pub decode_loop : ℕ → List ℕ → ℕ → List ℕ → Outcome (Option (List ℕ))
  decode_loop zero b skip text = stop out_of_fuel
  decode_loop (suc fuel) b skip text =
      if peek text == 0 then ok (some b) else elim (readout4 beyond b64 skip text) [
        | refused text' ↦ stop (lua_error "invalid character '%c'" (peek text' ∷ []))
        | took q skip' text' ↦
            let more = decode_loop fuel (b ++ group_bytes skip' q) skip' text' in
            if not (leb skip' 2)
            then stop assertion
            else if b64.strict && extraneous skip' q
            then ok none
            else more
      ]

  -- Each round that passes the assertion takes a character at least.
  unfoldable pub decode : List ℕ → Outcome (Option (List ℕ))
  decode text = decode_loop (suc (length text)) [] 0 text
