-- ===== src/Idn/Tests.antt =====
-- The theorems about domain names, with a library that changes nothing.
use lua_conmanorg.Idn.{Libidn, idn_encode, idn_decode, behind_prefix}
use lua_conmanorg.Idn.Names.{Name, last, label, text, IsLabel, Labels, has_high}
use lua_conmanorg.Idn.RoundTrip.{Inverse, AllConvert, one, more, plain, foreign, idn_decode-encode}
use lua_conmanorg.Prelude.{ℕ, ◌≡◌, refl, List, [], ◌∷◌, some, ok, arith}

abbrev library : Libidn
library = record {
  stringprep_utf8_nfkc_normalize = some;
  stringprep_utf8_to_ucs4 = some;
  punycode_encode = λ room u. some u;
  punycode_decode = λ room p. some p;
  stringprep_ucs4_to_utf8 = some;
}

some_injective : {x y : List ℕ} → some x ≡ some y → some y ≡ some x
some_injective e = cc

library-Inverse : Inverse library
library-Inverse = record { punycode = λ u p e. some_injective e; utf8 = λ n u e. some_injective e }

abbrev name : Name
name = label (b'a' ∷ []) (last (0xe9 ∷ []))

name-Labels : Labels IsLabel name
unfolding Labels
name-Labels = (((omega arith, omega arith), tt), ((omega arith, omega arith), tt))

name-AllConvert : AllConvert library name name
unfolding has_high behind_prefix
name-AllConvert = more (plain ((omega arith, omega arith), tt) refl refl) (
    one (
      foreign (0xe9 ∷ []) (0xe9 ∷ []) ((omega arith, omega arith), tt) refl refl refl refl
        ((omega arith, omega arith), tt)))

idn_decode-encode_example :
    (e : List ℕ) × (idn_encode library (text name) ≡ some e)
    × (idn_decode library e ≡ ok (some (text name)))
idn_decode-encode_example = idn_decode-encode library library-Inverse name-AllConvert
