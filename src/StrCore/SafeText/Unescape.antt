-- ===== src/StrCore/SafeText/Unescape.antt =====
-- Reading the escaped text of src/strcore.c back.
use mathlib.Core.Option
use lua_conmanorg.StrCore.SafeText.{
  escape_letter, c0, plain, safeascii, is_continuation, utf8_two, utf8_three, utf8_four,
  safeutf8_loop, safeutf8,
}
use lua_conmanorg.StrCore.ByteMasks.{mask_c0}
use lua_conmanorg.StrCore.SafeText.Rounds.{IsByte, round, round-Leaves, safeutf8_round-ok}
use lua_conmanorg.Prelude.{
  ℕ, zero, suc, ◌+◌, ◌-◌, ◌*◌, ◌≤◌, ◌<◌, Option, none, some, true, List, [], ◌∷◌, ◌++◌, ◌==◌,
  if◌then◌else◌, length, All, ok, ◌≡◌, refl, arith,
}

-- Lua's escapes in a string: a letter, a backslash, or three decimal digits.
unfoldable pub letter_value : ℕ → Option ℕ
letter_value c =
    if c == b'a'
    then some 7
    else if c == b'b'
    then some 8
    else if c == b'f'
    then some 12
    else if c == b'n'
    then some 10
    else if c == b'r'
    then some 13
    else if c == b't'
    then some 9
    else if c == b'v'
    then some 11
    else if c == b'\\'
    then some b'\\'
    else none

-- What has been read of an escape: nothing, the backslash, and one or two digits.
pub data Mode : Type 0 where
  outside slash : Mode
  digits : ℕ → Mode
  more_digits : ℕ → Mode

unfoldable pub unescape : Mode → List ℕ → Option (List ℕ)
unescape outside [] = some []
unescape _ [] = none
unescape outside (c ∷ cs) =
    let escape = unescape slash cs in
    let itself = Option.map (λ t. c ∷ t) (unescape outside cs) in
    if c == b'\\' then escape else itself
unescape slash (c ∷ cs) = elim (letter_value c) [
  | some v ↦ Option.map (λ t. v ∷ t) (unescape outside cs)
  | none ↦ unescape (digits (c - b'0')) cs
]
unescape (digits n) (c ∷ cs) = unescape (more_digits (n * 10 + (c - b'0'))) cs
unescape (more_digits n) (c ∷ cs) =
    Option.map (λ t. (n * 10 + (c - b'0')) ∷ t) (unescape outside cs)

abbrev pub prepend : List ℕ → Option (List ℕ) → Option (List ℕ)
prepend s = Option.map (λ t. s ++ t)

unescape-c0 :
    (c : ℕ) (rest : List ℕ)
    → c < 256
    → unescape outside (c0 c ++ rest) ≡ prepend (c ∷ []) (unescape outside rest)
unfolding unescape c0 escape_letter letter_value
unescape-c0 c rest h = ground arith

unescape-plain :
    (c : ℕ) (rest : List ℕ)
    → unescape outside (plain c ++ rest) ≡ prepend (c ∷ []) (unescape outside rest)
unfolding unescape letter_value
unescape-plain c rest = ground arith

-- `safeascii` loses nothing: reading its escapes gives the bytes back.
unescape-safeascii : (s : List ℕ) → All IsByte s → unescape outside (safeascii s) ≡ some s
unfolding safeascii
unescape-safeascii [] h = unfold unescape in refl
unescape-safeascii (c ∷ cs) (hc, h) = ground (
  arith,
  unescape-c0 c (safeascii cs) hc,
  unescape-plain c (safeascii cs),
  unescape-safeascii cs h,
)

-- The bytes of a multibyte sequence are written as they are.
continuation_range : (d : ℕ) → d < 256 → is_continuation d ≡ true → 128 ≤ d
continuation_range d h e = ground (arith, mask_c0 d h)

unescape_itself :
    (c : ℕ) (cs : List ℕ)
    → 128 ≤ c
    → unescape outside (c ∷ cs) ≡ prepend (c ∷ []) (unescape outside cs)
unfolding unescape
unescape_itself c cs h = ground arith

-- A result of a round on `c ∷ cs` reads back as the bytes that it takes, whatever is written later.
abbrev ReadsBack : ℕ → List ℕ → List ℕ → List ℕ × List ℕ → Type 0
ReadsBack c cs rest (written, left) =
    unescape outside rest ≡ some left → unescape outside (written ++ rest) ≡ some (c ∷ cs)

c0-ReadsBack : (c : ℕ) (cs rest : List ℕ) → c < 256 → ReadsBack c cs rest (c0 c, cs)
c0-ReadsBack c cs rest h e = rw (unescape-c0 c rest h, e) refl

plain-ReadsBack : (c : ℕ) (cs rest : List ℕ) → ReadsBack c cs rest (plain c, cs)
plain-ReadsBack c cs rest e = rw (unescape-plain c rest, e) refl

two-ReadsBack :
    (c : ℕ) (cs rest : List ℕ)
    → 128 ≤ c
    → c < 256
    → All IsByte cs
    → ReadsBack c cs rest (utf8_two c cs)
unfolding utf8_two
two-ReadsBack c [] rest lo h hs = c0-ReadsBack c [] rest h
two-ReadsBack c (d ∷ cs) rest lo h (hd, hs) = ground (
  arith,
  c0-ReadsBack c (d ∷ cs) rest h,
  continuation_range d hd,
  unescape_itself c (d ∷ rest) lo,
  unescape_itself d rest,
)

three-ReadsBack :
    (c : ℕ) (cs rest : List ℕ)
    → 128 ≤ c
    → c < 256
    → All IsByte cs
    → ReadsBack c cs rest (utf8_three c cs)
unfolding utf8_three
three-ReadsBack c [] rest lo h hs = c0-ReadsBack c [] rest h
three-ReadsBack c (d ∷ []) rest lo h hs = c0-ReadsBack c (d ∷ []) rest h
three-ReadsBack c (d ∷ e ∷ cs) rest lo h (hd, (he, hs)) = ground (
  arith,
  c0-ReadsBack c (d ∷ e ∷ cs) rest h,
  continuation_range d hd,
  continuation_range e he,
  unescape_itself c (d ∷ e ∷ rest) lo,
  unescape_itself d (e ∷ rest),
  unescape_itself e rest,
)

four-ReadsBack :
    (c : ℕ) (cs rest : List ℕ)
    → 128 ≤ c
    → c < 256
    → All IsByte cs
    → ReadsBack c cs rest (utf8_four c cs)
unfolding utf8_four
four-ReadsBack c [] rest lo h hs = c0-ReadsBack c [] rest h
four-ReadsBack c (d ∷ []) rest lo h hs = c0-ReadsBack c (d ∷ []) rest h
four-ReadsBack c (d ∷ e ∷ []) rest lo h hs = c0-ReadsBack c (d ∷ e ∷ []) rest h
four-ReadsBack c (d ∷ e ∷ f ∷ cs) rest lo h (hd, (he, (hf, hs))) = ground (
  arith,
  c0-ReadsBack c (d ∷ e ∷ f ∷ cs) rest h,
  continuation_range d hd,
  continuation_range e he,
  continuation_range f hf,
  unescape_itself c (d ∷ e ∷ f ∷ rest) lo,
  unescape_itself d (e ∷ f ∷ rest),
  unescape_itself e (f ∷ rest),
  unescape_itself f rest,
)

round-ReadsBack :
    (c : ℕ) (cs rest : List ℕ) → c < 256 → All IsByte cs → ReadsBack c cs rest (round c cs)
round-ReadsBack c cs rest h hs = ground (
  arith,
  c0-ReadsBack c cs rest h,
  plain-ReadsBack c cs rest,
  two-ReadsBack c cs rest,
  three-ReadsBack c cs rest,
  four-ReadsBack c cs rest,
)

safeutf8_loop_reads_back :
    (fuel : ℕ) (s : List ℕ)
    → length s ≤ fuel
    → All IsByte s
    → (out : List ℕ) × (safeutf8_loop fuel s ≡ ok out) × (unescape outside out ≡ some s)
unfolding safeutf8_loop
safeutf8_loop_reads_back fuel [] f h = ([], refl, unfold unescape in refl)
safeutf8_loop_reads_back zero (c ∷ cs) f h = absurd (omega arith)
safeutf8_loop_reads_back (suc fuel) (c ∷ cs) f (hc, h) =
    let (written, left) = round c cs in
    let (shorter, bytes) = round-Leaves c cs in
    let (more, returns, reads) = safeutf8_loop_reads_back fuel left (omega arith) (bytes h) in
    (
      written ++ more,
      rw (safeutf8_round-ok c cs, returns) refl,
      round-ReadsBack c cs more hc h reads,
    )

-- `safeutf8` returns on every string of bytes, and reading its escapes gives the bytes back.
pub unescape-safeutf8 :
    (s : List ℕ)
    → All IsByte s
    → (out : List ℕ) × (safeutf8 s ≡ ok out) × (unescape outside out ≡ some s)
unfolding safeutf8
unescape-safeutf8 s h = safeutf8_loop_reads_back (length s) s (omega arith) h
