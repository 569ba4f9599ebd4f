-- ===== src/Prelude/Numerals.antt =====
-- `strtoul` of the C library, in base 10 and with 64 bits, and what it makes of the numerals that
-- `%d` writes. A text with a NUL inside ends there, since a NUL is no digit. The tests of characters
-- are those of the C locale.
use lua_conmanorg.Prelude.{
  ℕ, zero, suc, ◌+◌, ◌-◌, ◌*◌, ◌/◌, ◌%◌, ◌^◌, ◌<◌, ◌≡◌, ◌≢◌, refl, ltb, leb, ◌==◌, Bool, true,
  false, ◌&&◌, ◌||◌, if◌then◌else◌, List, [], ◌∷◌, ◌++◌, pos, decimal, digits_from, sym, arith, ap,
  ◌∙◌, Bool-cases, inl, inr,
}

abbrev pub is_digit : ℕ → Bool
is_digit c = leb b'0' c && leb c b'9'

abbrev is_space : ℕ → Bool
is_space c = (c == 32) || (leb 9 c && leb c 13)

unfoldable pub skip_spaces : List ℕ → List ℕ
skip_spaces [] = []
skip_spaces (c ∷ text) = let rest = skip_spaces text in if is_space c then rest else c ∷ text

unfoldable pub digit_loop : ℕ → List ℕ → ℕ × List ℕ
digit_loop v [] = (v, [])
digit_loop v (c ∷ text) =
    let rest = digit_loop (v * 10 + (c - b'0')) text in if is_digit c then rest else (v, c ∷ text)

-- Where there is no digit the number is 0 and `end` is the whole text.
unfoldable pub magnitude_of : List ℕ → List ℕ → ℕ × List ℕ
magnitude_of whole [] = (0, whole)
magnitude_of whole (c ∷ text) =
    let n = digit_loop 0 (c ∷ text) in if is_digit c then n else (0, whole)

-- Whether there is a minus sign, and the rest.
unfoldable pub after_sign : List ℕ → Bool × List ℕ
after_sign [] = (false, [])
after_sign (c ∷ text) =
    if c == b'-' then (true, text) else if c == b'+' then (false, text) else (false, c ∷ text)

unfoldable pub scanned : List ℕ → ℕ × List ℕ
scanned text = magnitude_of text (after_sign (skip_spaces text)).1

-- A number above the largest is the largest; a minus sign is taken modulo 2^64.
unfoldable pub ulong : Bool → ℕ → ℕ
ulong negative v =
    if leb (2 ^ 64) v then 2 ^ 64 - 1 else if negative then (2 ^ 64 - v) % 2 ^ 64 else v

-- The value, and the text from `end` on.
unfoldable pub strtoul : List ℕ → ℕ × List ℕ
strtoul text = (ulong (after_sign (skip_spaces text)).0 (scanned text).0, (scanned text).1)

-- Whether `errno` becomes ERANGE; it is set to nothing else.
unfoldable pub out_of_range : List ℕ → Bool
out_of_range text = leb (2 ^ 64) (scanned text).0

digit_loop-digits_from :
    (fuel n : ℕ) (acc : List ℕ)
    → n < fuel
    → digit_loop 0 (digits_from fuel n acc) ≡ digit_loop n acc
unfolding digits_from digit_loop
digit_loop-digits_from zero n acc h = absurd (omega arith)
digit_loop-digits_from (suc fuel) n acc h =
    ground (arith, digit_loop-digits_from fuel (n / 10) ((b'0' + n % 10) ∷ acc))

digits_from-append :
    (fuel n : ℕ) (acc more : List ℕ)
    → digits_from fuel n acc ++ more ≡ digits_from fuel n (acc ++ more)
unfolding digits_from
digits_from-append zero n acc more = refl
digits_from-append (suc fuel) n acc more =
    ground (arith, digits_from-append fuel (n / 10) ((b'0' + n % 10) ∷ acc) more)

-- The list starts with a digit.
abbrev Numeral : List ℕ → Type 0
Numeral text = (c : ℕ) × ((rest : List ℕ) × (text ≡ c ∷ rest) × (is_digit c ≡ true))

digits_from-Numeral : (fuel n : ℕ) (acc : List ℕ) → n < fuel → Numeral (digits_from fuel n acc)
unfolding digits_from
digits_from-Numeral zero n acc h = absurd (omega arith)
digits_from-Numeral (suc fuel) n acc h = elim (Bool-cases (ltb n 10)) [
  | inl small ↦ (b'0' + n, (acc, ground arith, ground arith))
  | inr large ↦
      let (c, (rest, e, d)) =
        digits_from-Numeral fuel (n / 10) ((b'0' + n % 10) ∷ acc) (ground arith) in
      (c, (rest, ground arith, d))
]

strtoul_lem :
    (c : ℕ) (text unit : List ℕ) (v : ℕ)
    → is_digit c ≡ true
    → digit_loop 0 (c ∷ text) ≡ (v, unit)
    → v < 2 ^ 64
    → (strtoul (c ∷ text) ≡ (v, unit)) × (out_of_range (c ∷ text) ≡ false)
unfolding strtoul out_of_range scanned magnitude_of after_sign skip_spaces ulong
strtoul_lem c text unit v d e h = (ground arith, ground arith)

-- A text after a numeral: no digit, and no NUL.
abbrev pub Suffix : List ℕ → Type 0
Suffix [] = Unit {0}
Suffix (c ∷ unit) = (is_digit c ≡ false) × (c ≢ 0)

digit_loop-Suffix : (n : ℕ) (unit : List ℕ) → Suffix unit → digit_loop n unit ≡ (n, unit)
unfolding digit_loop
digit_loop-Suffix n [] h = refl
digit_loop-Suffix n (c ∷ unit) (d, z) = ground arith

pub strtoul-decimal :
    (n : ℕ) (unit : List ℕ)
    → n < 2 ^ 64
    → Suffix unit
    → (strtoul (decimal (pos n) ++ unit) ≡ (n, unit))
      × (out_of_range (decimal (pos n) ++ unit) ≡ false)
unfolding decimal
strtoul-decimal n unit h s =
    let (c, (rest, e, d)) = digits_from-Numeral (suc n) n unit (omega arith) in
    let loop = digit_loop-digits_from (suc n) n unit (omega arith) ∙ digit_loop-Suffix n unit s in
    let text = digits_from-append (suc n) n [] unit ∙ e in
    let (value, range) = strtoul_lem c rest unit n d (sym (ap (digit_loop 0) e) ∙ loop) h in
    (ap strtoul text ∙ value, ap out_of_range text ∙ range)
