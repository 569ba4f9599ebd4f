-- ===== src/StrCore/SafeText.antt =====
-- `C0`, `strcore_safeascii`, `UTF8` and `strcore_safeutf8` of src/strcore.c. A string is a list of
-- bytes, and what is added to the `luaL_Buffer` is the list that a function returns.
pub mod Rounds
pub mod Unescape
pub mod Printable
pub mod Clean
use lua_conmanorg.Prelude.{
  ℕ, zero, suc, ◌+◌, ◌/◌, ◌%◌, ◌^◌, bit_and, Bool, not, ◌&&◌, Option, none, some, List, [], ◌∷◌,
  ◌++◌, ltb, leb, ◌==◌, if◌then◌else◌, length, out_of_fuel, Outcome, ok, stop, ◌>>=◌, ◌>>◌, assert,
}

-- `snprintf(num,sizeof(num),"%03d",c)` on a byte.
abbrev three_digits : ℕ → List ℕ
three_digits c = (b'0' + c / 100) ∷ (b'0' + c / 10 % 10) ∷ (b'0' + c % 10) ∷ []

-- The `switch` of `C0`, in decimal: \a \b \f \n \r \t \v.
unfoldable pub escape_letter : ℕ → Option ℕ
escape_letter c =
    if c == 7
    then some b'a'
    else if c == 8
    then some b'b'
    else if c == 12
    then some b'f'
    else if c == 10
    then some b'n'
    else if c == 13
    then some b'r'
    else if c == 9
    then some b't'
    else if c == 11
    then some b'v'
    else none

unfoldable pub c0 : ℕ → List ℕ
c0 c = b'\\' ∷ elim (escape_letter c) [ some l ↦ l ∷ [] | none ↦ three_digits c ]

-- What both functions write for a byte from ' ' to '~'.
abbrev pub plain : ℕ → List ℕ
plain c = if c == b'\\' then b'\\' ∷ b'\\' ∷ [] else c ∷ []

unfoldable pub safeascii : List ℕ → List ℕ
safeascii [] = []
safeascii (c ∷ cs) =
    (if ltb c b' ' then c0 c else if ltb b'~' c then c0 c else plain c) ++ safeascii cs

-- `(c & 0xC0) == 0x80`
abbrev pub is_continuation : ℕ → Bool
is_continuation c = bit_and c 0xc0 == 0x80

-- The bytes of `UTF8` at a lead byte, and the text behind them; a sequence that is cut off or
-- malformed has its lead byte escaped alone (`goto bad`).
abbrev bad : ℕ → List ℕ → List ℕ × List ℕ
bad c cs = (c0 c, cs)

unfoldable pub utf8_two : ℕ → List ℕ → List ℕ × List ℕ
utf8_two c [] = bad c []
utf8_two c (d ∷ cs) = if not (is_continuation d) then bad c (d ∷ cs) else (c ∷ d ∷ [], cs)

unfoldable pub utf8_three : ℕ → List ℕ → List ℕ × List ℕ
utf8_three c (d ∷ e ∷ cs) =
    if not (is_continuation d)
    then bad c (d ∷ e ∷ cs)
    else if not (is_continuation e)
    then bad c (d ∷ e ∷ cs)
    else (c ∷ d ∷ e ∷ [], cs)
utf8_three c cs = bad c cs

unfoldable pub utf8_four : ℕ → List ℕ → List ℕ × List ℕ
utf8_four c (d ∷ e ∷ f ∷ cs) =
    if not (is_continuation d)
    then bad c (d ∷ e ∷ f ∷ cs)
    else if not (is_continuation e)
    then bad c (d ∷ e ∷ f ∷ cs)
    else if not (is_continuation f)
    then bad c (d ∷ e ∷ f ∷ cs)
    else (c ∷ d ∷ e ∷ f ∷ [], cs)
utf8_four c cs = bad c cs

-- The branches on the lead byte.
abbrev pub utf8_sequence : ℕ → List ℕ → List ℕ × List ℕ
utf8_sequence c cs =
    if bit_and c 0xe0 == 0xc0
    then utf8_two c cs
    else if bit_and c 0xf0 == 0xe0
    then utf8_three c cs
    else utf8_four c cs

unfoldable pub utf8 : ℕ → List ℕ → Outcome (List ℕ × List ℕ)
utf8 c cs = do assert (leb 0xc2 c); assert (leb c 0xf4); ok (utf8_sequence c cs)

-- One round of the loop of `strcore_safeutf8`: what is written, and the text that is left.
unfoldable pub safeutf8_round : ℕ → List ℕ → Outcome (List ℕ × List ℕ)
safeutf8_round c cs =
    if ltb c b' '
    then ok (c0 c, cs)
    else if ltb c 0x7f
    then ok (plain c, cs)
    else if ltb c 0xc2
    then ok (c0 c, cs)
    else if ltb c 0xf5
    then utf8 c cs
    else ok (c0 c, cs)

unfoldable pub safeutf8_loop : ℕ → List ℕ → Outcome (List ℕ)
safeutf8_loop fuel [] = ok []
safeutf8_loop zero (c ∷ cs) = stop out_of_fuel
safeutf8_loop (suc fuel) (c ∷ cs) = do
  (written, left) ← safeutf8_round c cs
  more ← safeutf8_loop fuel left
  ok (written ++ more)

-- Each round takes a byte at least.
unfoldable pub safeutf8 : List ℕ → Outcome (List ℕ)
safeutf8 text = safeutf8_loop (length text) text
