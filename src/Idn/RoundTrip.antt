-- ===== src/Idn/RoundTrip.antt =====
-- `idn_decode` after `idn_encode`, both of src/idn.c.
use lua_conmanorg.Idn.{
  Libidn, prefix, encoded, from_ucs4, from_normalized, add_segment, close_segment, idn_encode,
  behind_prefix, or_nothing, decode_punycode, decode_label, idn_decode,
}
use lua_conmanorg.Prelude.{
  ℕ, suc, ◌-◌, true, false, none, some, List, [], ◌++◌, length, take, ok, ◌≡◌, refl, sym, ap, ◌∙◌,
  arith,
}
use lua_conmanorg.Idn.Names.{
  Name, last, label, text, dotted, dotted_option, each, IsLabel, Labels, has_high, append_nil,
}
use lua_conmanorg.Idn.Encoding.{encode_label, idn_encode-each}
use lua_conmanorg.Idn.Decoding.{decode_one, idn_decode-each, take_whole}

prefix-IsLabel : (p : List ℕ) → IsLabel p → IsLabel (prefix ++ p)
prefix-IsLabel p q = (
  (omega arith, omega arith),
  ((omega arith, omega arith), ((omega arith, omega arith), ((omega arith, omega arith), q))),
)

module _ (lib : Libidn) where
  -- What libidn documents: the functions undo each other.
  pub record Inverse : Type 0 where
    pub punycode :
        (u p : List ℕ) → lib.punycode_encode 64 u ≡ some p → lib.punycode_decode 64 p ≡ some u
    pub utf8 :
        (n u : List ℕ)
        → lib.stringprep_utf8_to_ucs4 n ≡ some u
        → lib.stringprep_ucs4_to_utf8 u ≡ some n

  -- A label and what is left of it after both functions: itself where it has no byte above 127 and
  -- does not start with `xn--`; its normal form where libidn can write it with no dot in the result.
  pub data Converts : List ℕ → List ℕ → Type 0 where
    plain :
        {l : List ℕ} → IsLabel l → has_high l ≡ false → behind_prefix prefix l ≡ none → Converts l l
    foreign :
        {l n : List ℕ} (u p : List ℕ)
        → IsLabel l
        → has_high l ≡ true
        → lib.stringprep_utf8_nfkc_normalize l ≡ some n
        → lib.stringprep_utf8_to_ucs4 n ≡ some u
        → lib.punycode_encode 64 u ≡ some p
        → IsLabel p
        → Converts l n

  pub data AllConvert : Name → Name → Type 0 where
    one : {l n : List ℕ} → Converts l n → AllConvert (last l) (last n)
    more :
        {l n : List ℕ} {rest rest' : Name}
        → Converts l n
        → AllConvert rest rest'
        → AllConvert (label l rest) (label n rest')

  converted_returns :
      (laws : Inverse) {l n : List ℕ}
      → Converts l n
      → IsLabel l
        × ((e : List ℕ) × (encode_label lib l ≡ some e) × IsLabel e × (decode_one lib e ≡ some n))
  unfolding encode_label decode_one close_segment decode_label add_segment from_normalized from_ucs4
      encoded decode_punycode behind_prefix or_nothing
  converted_returns laws {l} (plain h high start) = (h, (l, rw high refl, h, rw start refl))
  converted_returns laws {l} {n} (foreign u p h high a b c q) =
      let count : suc (suc (suc (suc (length p)))) - 4 ≡ length p = omega arith in
      (
        h,
        (
          prefix ++ p,
          rw high (rw a (rw b (rw c refl))),
          prefix-IsLabel p q,
          ap (λ t. decode_punycode lib (lib.punycode_decode 64 t))
                (ap (λ k. take k p) count
                  ∙ ap (take (length p)) (sym (append_nil p))
                  ∙ take_whole p [])
              ∙ ap (decode_punycode lib) (laws.punycode u p c)
              ∙ ap (λ t. some (or_nothing t)) (laws.utf8 n u b),
        ),
      )

  -- What the loop makes of each name.
  all_return :
      (laws : Inverse) {name name' : Name}
      → AllConvert name name'
      → Labels IsLabel name
        × ((e : Name) × (each (encode_label lib) name ≡ some (text e))
            × Labels IsLabel e
            × (each (decode_one lib) e ≡ some (text name')))
  unfolding each text Labels dotted_option dotted
  all_return laws {name = last l} (one c) =
      let r = converted_returns laws c in (r.0, (last r.1.0, r.1.1, r.1.2, r.1.3))
  all_return laws {name = label l rest} (more c cs) =
      let r = converted_returns laws c in
      let s = all_return laws cs in
      (
        (r.0, s.0),
        (label r.1.0 s.1.0, rw r.1.1 (rw s.1.1 refl), (r.1.2, s.1.2), rw r.1.3 (rw s.1.3 refl)),
      )

  -- Where every label is plain or can be converted, `idn_encode` gives a name, and `idn_decode` gives
  -- back the name with the normal form of each label.
  pub idn_decode-encode :
      (laws : Inverse) {name name' : Name}
      → AllConvert name name'
      → (e : List ℕ) × (idn_encode lib (text name) ≡ some e)
        × (idn_decode lib e ≡ ok (some (text name')))
  idn_decode-encode laws {name} {name'} c =
      let r = all_return laws c in
      (
        text r.1.0,
        idn_encode-each lib name r.0 ∙ r.1.1,
        idn_decode-each lib r.1.0 r.1.2 ∙ ap ok r.1.3,
      )
