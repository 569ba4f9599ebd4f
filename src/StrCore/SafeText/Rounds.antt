-- ===== src/StrCore/SafeText/Rounds.antt =====
-- A round of the loop of `strcore_safeutf8` of src/strcore.c.
use lua_conmanorg.StrCore.SafeText.{
  c0, plain, utf8_two, utf8_three, utf8_four, utf8_sequence, utf8, safeutf8_round,
}
use lua_conmanorg.Prelude.{
  ℕ, ◌≤◌, ◌<◌, List, [], ◌∷◌, ltb, if◌then◌else◌, length, All, ok, ◌≡◌, arith,
}

abbrev pub IsByte : ℕ → Type 0
IsByte c = c < 256

-- What a round writes and what it leaves.
abbrev pub round : ℕ → List ℕ → List ℕ × List ℕ
round c cs =
    if ltb c b' '
    then (c0 c, cs)
    else if ltb c 0x7f
    then (plain c, cs)
    else if ltb c 0xc2
    then (c0 c, cs)
    else if ltb c 0xf5
    then utf8_sequence c cs
    else (c0 c, cs)

pub safeutf8_round-ok : (c : ℕ) (cs : List ℕ) → safeutf8_round c cs ≡ ok (round c cs)
unfolding safeutf8_round utf8
safeutf8_round-ok c cs = ground arith

abbrev Leaves : List ℕ → List ℕ × List ℕ → Type 0
Leaves cs (written, left) = (length left ≤ length cs) × (All IsByte cs → All IsByte left)

utf8_two-Leaves : (c : ℕ) (cs : List ℕ) → Leaves cs (utf8_two c cs)
unfolding utf8_two
utf8_two-Leaves c [] = ground arith
utf8_two-Leaves c (d ∷ cs) = ground arith

utf8_three-Leaves : (c : ℕ) (cs : List ℕ) → Leaves cs (utf8_three c cs)
unfolding utf8_three
utf8_three-Leaves c [] = ground arith
utf8_three-Leaves c (d ∷ []) = ground arith
utf8_three-Leaves c (d ∷ e ∷ cs) = ground arith

utf8_four-Leaves : (c : ℕ) (cs : List ℕ) → Leaves cs (utf8_four c cs)
unfolding utf8_four
utf8_four-Leaves c [] = ground arith
utf8_four-Leaves c (d ∷ []) = ground arith
utf8_four-Leaves c (d ∷ e ∷ []) = ground arith
utf8_four-Leaves c (d ∷ e ∷ f ∷ cs) = ground arith

pub round-Leaves : (c : ℕ) (cs : List ℕ) → Leaves cs (round c cs)
round-Leaves c cs =
    ground (arith, utf8_two-Leaves c cs, utf8_three-Leaves c cs, utf8_four-Leaves c cs)
