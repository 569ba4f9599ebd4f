-- ===== src/StrCore/Glyphs.antt =====
-- `enum eclass`, the table `sclass` and `charsmatch` of src/strcore.c: the glyph at a place of a
-- UTF-8 text, and what it is for the layout of lines.
pub mod Bounds
use lua_conmanorg.Prelude.{
  ℕ, zero, suc, ◌+◌, ◌*◌, ◌^◌, bit_and, bit_or, Bool, not, ◌||◌, Option, none, some, List, [], ◌∷◌,
  ◌++◌, ltb, leb, ◌==◌, if◌then◌else◌, get_or,
}

-- `BAD` is the answer `none` of `charsmatch`.
pub data EClass : Type 0 where
  space combining shy hyphen reset char : EClass

-- `count` entries of one class, for the characters from `first` on.
abbrev run : ℕ → ℕ → EClass → List (ℕ × EClass) → List (ℕ × EClass)
run first zero class rest = rest
run first (suc count) class rest = (first, class) ∷ run (suc first) count class rest

abbrev runs : List (ℕ × ℕ × EClass) → List (ℕ × EClass)
runs [] = []
runs ((first, count, class) ∷ more) = run first count class (runs more)

-- The table, whose entries stand in the order of their characters.
unfoldable pub sclass : List (ℕ × EClass)
sclass = runs sclass_runs
  where
    sclass_runs : List (ℕ × ℕ × EClass)
    sclass_runs =
        (9, 1, space)
        ∷ (32, 1, space)
        ∷ (45, 1, hyphen)
        ∷ (133, 1, reset)
        ∷ (173, 1, shy)
        ∷ (768, 81, combining)
        ∷ (1418, 1, hyphen)
        ∷ (5760, 1, space)
        ∷ (6150, 1, shy)
        ∷ (6158, 1, space)
        ∷ (6832, 15, combining)
        ∷ (7616, 64, combining)
        ∷ (8192, 7, space)
        ∷ (8200, 6, space)
        ∷ (8208, 1, hyphen)
        ∷ (8210, 3, hyphen)
        ∷ (8287, 1, space)
        ∷ (8400, 33, combining)
        ∷ (11799, 1, hyphen)
        ∷ (12288, 1, space)
        ∷ (12539, 1, hyphen)
        ∷ (65056, 16, combining)
        ∷ (65123, 1, hyphen)
        ∷ (65293, 1, hyphen)
        ∷ (65381, 1, hyphen)
        ∷ []

-- `bsearch` by `cclasscmp` in a table without repeated characters.
unfoldable pub class_in : List (ℕ × EClass) → ℕ → EClass
class_in [] c = char
class_in ((d, class) ∷ more) c = if d == c then class else class_in more c

-- The character that a two, three or four byte sequence stands for.
abbrev pub decode_two : ℕ → ℕ → ℕ
decode_two c d = bit_or (bit_and c 0x1f * 2 ^ 6) (bit_and d 0x3f)

abbrev pub decode_three : ℕ → ℕ → ℕ → ℕ
decode_three c d e =
    bit_or (bit_or (bit_and c 0x0f * 2 ^ 12) (bit_and d 0x3f * 2 ^ 6)) (bit_and e 0x3f)

abbrev pub decode_four : ℕ → ℕ → ℕ → ℕ → ℕ
decode_four c d e f =
    bit_or
      (bit_or (bit_or (bit_and c 0xf1 * 2 ^ 18) (bit_and d 0x3f * 2 ^ 12)) (bit_and e 0x3f * 2 ^ 6))
      (bit_and f 0x3f)

-- `(c2 & 0xC0) != 0x80`
abbrev not_continuation : ℕ → Bool
not_continuation c = not (bit_and c 0xc0 == 0x80)

-- The character at `s[i]` and the place behind it, in a text of `len` bytes.
unfoldable pub char_at : List ℕ → ℕ → ℕ → Option (ℕ × ℕ)
char_at s i len =
    let c = get_or s i 0 in
    let c1 = get_or s (i + 1) 0 in
    let c2 = get_or s (i + 2) 0 in
    let c3 = get_or s (i + 3) 0 in
    if ltb c 0x7f
    then if ltb len (i + 1) then none else some (c, i + 1)
    else if ltb len (i + 2)
    then none
    else if ltb c 0xc2 || ltb 0xf4 c
    then none
    else if bit_and c 0xe0 == 0xc0
    then if not_continuation c1 then none else some (decode_two c c1, i + 2)
    else if bit_and c 0xf0 == 0xe0
    then if ltb len (i + 3)
      then none
      else if not_continuation c1
      then none
      else if not_continuation c2
      then none
      else some (decode_three c c1 c2, i + 3)
    else if ltb len (i + 4)
    then none
    else if not_continuation c1
    then none
    else if not_continuation c2
    then none
    else if not_continuation c3
    then none
    else some (decode_four c c1 c2 c3, i + 4)

-- `charsmatch`: the class of the character at `s[i]`, and `*n`.
unfoldable pub charsmatch : List ℕ → ℕ → ℕ → Option (EClass × ℕ)
charsmatch s i len = elim (char_at s i len) [
  | none ↦ none
  | some (c, n) ↦ some (class_in sclass c, n)
]
