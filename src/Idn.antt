-- ===== src/Idn.antt =====
-- International domain names: `idn_encode` and `idn_decode` of src/idn.c.
pub mod Names
pub mod Encoding
pub mod Decoding
pub mod RoundTrip
mod Tests
use lua_conmanorg.Prelude.{
  ℕ, zero, suc, ◌+◌, ◌-◌, leb, ◌==◌, Bool, true, false, ◌||◌, if◌then◌else◌, Option, none, some,
  List, [], ◌∷◌, ◌++◌, length, take, Outcome, ok, stop, out_of_fuel, split_at_first,
}

-- What the code calls of libidn. A code point that the library cannot handle gives `none`; the first
-- argument of the two Punycode functions is the room for their result.
pub record Libidn : Type 0 where
  pub stringprep_utf8_nfkc_normalize : List ℕ → Option (List ℕ)
  pub stringprep_utf8_to_ucs4 : List ℕ → Option (List ℕ)
  pub punycode_encode : ℕ → List ℕ → Option (List ℕ)
  pub punycode_decode : ℕ → List ℕ → Option (List ℕ)
  pub stringprep_ucs4_to_utf8 : List ℕ → Option (List ℕ)

abbrev pub prefix : List ℕ
prefix = b'x' ∷ b'n' ∷ b'-' ∷ b'-' ∷ []

unfoldable pub encoded : Option (List ℕ) → Option (List ℕ)
encoded none = none
encoded (some topuny) = some (prefix ++ topuny)

unfoldable pub add : List ℕ → Option (List ℕ) → Option (List ℕ)
add buf none = none
add buf (some text) = some (buf ++ text)

-- `strncmp(orig,"xn--",4) == 0`, and what stands behind.
unfoldable pub behind_prefix : List ℕ → List ℕ → Option (List ℕ)
behind_prefix [] text = some text
behind_prefix (p ∷ ps) [] = none
behind_prefix (p ∷ ps) (c ∷ text) =
    let rest = behind_prefix ps text in if c == p then rest else none

unfoldable pub or_nothing : Option (List ℕ) → List ℕ
or_nothing none = []
or_nothing (some result) = result

module _ (lib : Libidn) where
  unfoldable pub from_ucs4 : Option (List ℕ) → Option (List ℕ)
  from_ucs4 none = none
  from_ucs4 (some domain) = encoded (lib.punycode_encode 64 domain)

  unfoldable pub from_normalized : Option (List ℕ) → Option (List ℕ)
  from_normalized none = none
  from_normalized (some normalized) = from_ucs4 (lib.stringprep_utf8_to_ucs4 normalized)

  -- What is added to the buffer; `none` is `false`.
  unfoldable pub add_segment : List ℕ → Option (List ℕ)
  add_segment seg = from_normalized (lib.stringprep_utf8_nfkc_normalize seg)

  unfoldable pub close_segment : Bool → List ℕ → Option (List ℕ)
  close_segment true seg = add_segment seg
  close_segment false seg = some seg

  -- `seg` is `orig[si]` to `orig[di - 1]`, and the list is what stands from `orig[di]` on. A string
  -- is cut at a zero. The result `none` is no value for Lua.
  unfoldable pub encode_loop : List ℕ → List ℕ → Bool → List ℕ → Option (List ℕ)
  encode_loop [] seg utf8 buf = add buf (close_segment utf8 seg)
  encode_loop (c ∷ rest) seg utf8 buf =
      let dot : Option (List ℕ) = elim (add buf (close_segment utf8 seg)) [
        | none ↦ none
        | some more ↦ encode_loop rest [] false (more ++ (b'.' ∷ []))
      ] in
      let letter = encode_loop rest (seg ++ (c ∷ [])) (utf8 || leb 128 c) buf in
      if c == 0 then add buf (close_segment utf8 seg) else if c == b'.' then dot else letter

  unfoldable pub idn_encode : List ℕ → Option (List ℕ)
  idn_encode orig = encode_loop orig [] false []

  -- What one label adds to the buffer.
  unfoldable pub decode_punycode : Option (List ℕ) → Option (List ℕ)
  decode_punycode none = none
  decode_punycode (some frompuny) = some (or_nothing (lib.stringprep_ucs4_to_utf8 frompuny))

  unfoldable pub decode_label : List ℕ → Option (List ℕ) → Option (List ℕ)
  decode_label label none = some label
  decode_label label (some behind) =
      decode_punycode (lib.punycode_decode 64 (take (length label - 4) behind))

  -- One round of `while(true)` for each label; `orig` has no zero.
  unfoldable pub decode_loop : ℕ → List ℕ → List ℕ → Outcome (Option (List ℕ))
  decode_loop zero orig buf = stop out_of_fuel
  decode_loop (suc fuel) orig buf =
      let p = split_at_first b'.' orig in
      elim (add buf (decode_label p.0 (behind_prefix prefix orig))) [
        | none ↦ ok none
        | some more ↦ elim p.1 [
          | none ↦ ok (some more)
          | some rest ↦ decode_loop fuel rest (more ++ (b'.' ∷ []))
        ]
      ]

  unfoldable pub idn_decode : List ℕ → Outcome (Option (List ℕ))
  idn_decode orig = decode_loop (length orig + 1) orig []
