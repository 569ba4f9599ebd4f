-- ===== src/Base64/Tests.antt =====
-- Runs of the base-64 codec.
use lua_conmanorg.Base64.Object.{defaults}
use lua_conmanorg.Base64.Encoder.{encode_loop, encode}
use lua_conmanorg.Base64.Readout.{strchr, readout_loop, readout, readout4}
use lua_conmanorg.Base64.Decoder.{decode_loop, decode}
use lua_conmanorg.Base64.Object.{size_max, transtable_at, Base64, Options, b64lua, mbase}
use lua_conmanorg.Base64.Encoder.Rendering.{IsByte, rendering, encode-rendering}
use lua_conmanorg.Base64.Readout.Characters.{IsUsable}
use lua_conmanorg.Base64.Decoder.Termination.{Ends, decode-Ends}
use lua_conmanorg.Base64.RoundTrip.{decode-encode}
use lua_conmanorg.Base64.RoundTrip.LineEnds.{ends_in_newline}
use lua_conmanorg.Base64.Canonical.{IsSextet, spelling, encode-decode_strict}
use lua_conmanorg.Prelude.{
  codes, ℕ, ◌<◌, ◌==◌, ◌≡◌, Bool, true, false, ◌≢◌, ap, ltb, ltb→lt, check→All, refl, List, [], ◌∷◌,
  All, if◌then◌else◌, ok, stop, assertion, Option, some, none, arith,
}
use lua_conmanorg.Prelude.Bits.{agrees_below, agrees_below→eq}

encode_words :
    (encode defaults (codes "blahblahblah") ≡ ok (codes "YmxhaGJsYWhibGFo"))
    × (encode defaults (codes "a") ≡ ok (codes "YQ=="))
unfolding encode encode_loop
encode_words = (refl, refl)

decode_words :
    (decode [] defaults (codes "YmxhaGJs YWhibGFo") ≡ ok (some (codes "blahblahblah")))
    × (decode [] defaults (codes "QR==") ≡ ok (some (codes "A")))
    × (decode [] defaults (codes "QUJDREVG\n") ≡ stop assertion)
unfolding decode decode_loop readout4 readout readout_loop strchr
decode_words = (refl, refl, refl)

-- The default table.
position : Option ℕ → ℕ
position none = 100
position (some i) = i

at_position : (o : Option ℕ) (i : ℕ) → i < 64 → position o ≡ i → o ≡ some i
unfolding position
at_position none i h e = absurd (omega arith)
at_position (some j) i h e = ap some e

abbrev codec : ℕ → Bool → Base64
codec len strict = record defaults { len = len; strict = strict }

-- 1 where the character is a given one.
abbrev is_at : ℕ → ℕ → ℕ
is_at c i = if transtable_at defaults i == c then 1 else 0

not_at : (c i : ℕ) → is_at c i ≡ 0 → transtable_at defaults i ≢ c
not_at c i e = ground arith

usable : (len : ℕ) (strict : Bool) → IsUsable [] (codec len strict)
unfolding agrees_below position strchr
usable len strict = record {
  found = λ i h. at_position (strchr mbase (transtable_at defaults i)) i h (
      agrees_below→eq (λ i. position (strchr mbase (transtable_at defaults i))) (λ i. i) 64 i refl
        h);
  not_nul = λ i h. not_at 0 i (agrees_below→eq (is_at 0) (λ i. 0) 64 i refl h);
  not_pad = λ i h. not_at b'=' i (agrees_below→eq (is_at b'=') (λ i. 0) 64 i refl h);
  not_newline = λ i h. not_at b'\n' i (agrees_below→eq (is_at b'\n') (λ i. 0) 64 i refl h);
  newline_unfound = refl;
  pad_not_newline = omega arith;
}

abbrev word : List ℕ
word = codes "abc"

word-IsByte : All IsByte word
word-IsByte = check→All IsByte (λ c. ltb c 256) (λ c e. ltb→lt c 256 e) word refl

decode-encode_example :
    (text : List ℕ) × (encode defaults word ≡ ok text)
    × (decode [] defaults text ≡ (if ends_in_newline text then stop assertion else ok (some word)))
decode-encode_example = decode-encode [] defaults word (usable 76 false) word-IsByte

spelled :
    decode [] (codec size_max true) (spelling (codec size_max true) (24 ∷ 22 ∷ 9 ∷ 35 ∷ []))
    ≡ ok (some word)
unfolding decode decode_loop readout4 readout readout_loop strchr spelling
spelled = refl

encode-decode_strict_example :
    encode (codec size_max true) word ≡ ok (spelling (codec size_max true) (24 ∷ 22 ∷ 9 ∷ 35 ∷ []))
encode-decode_strict_example =
    encode-decode_strict [] (codec size_max true) (24 ∷ 22 ∷ 9 ∷ 35 ∷ []) word
      (usable size_max true) refl refl
      (check→All IsSextet (λ c. ltb c 64) (λ c e. ltb→lt c 64 e) (24 ∷ 22 ∷ 9 ∷ 35 ∷ []) refl)
      spelled

encode-rendering_example : encode defaults word ≡ ok (rendering defaults 0 word)
encode-rendering_example = encode-rendering defaults word word-IsByte

decode-Ends_example : Ends [] defaults (decode [] defaults word)
decode-Ends_example = decode-Ends [] defaults word

abbrev options : Options
options = record {
  base = none;
  last = none;
  pad = none;
  len = none;
  ignore = false;
  strict = false;
}

made : b64lua (some options) ≡ ok (record defaults { ignore = false })
unfolding b64lua
made = refl

unlisted : strchr mbase b'?' ≡ none
unfolding strchr
unlisted = refl
