-- ===== src/StrCore/Metaphone.antt =====
-- `strcore_metaphone` of src/strcore.c. The tests of characters are those of the C locale.
pub mod Codes
use lua_conmanorg.Prelude.{
  ℕ, zero, suc, ◌+◌, ◌-◌, ◌<◌, ltb, leb, ◌==◌, bit_and, Bool, true, false, not, ◌&&◌, ◌||◌,
  if◌then◌else◌, List, [], ◌∷◌, ◌++◌, length, get_or, set, Outcome, ok, stop, undefined, ◌>>=◌,
}

unfoldable pub vsfn : List ℕ
vsfn =
    1 ∷ 16 ∷ 4 ∷ 16 ∷ 9 ∷ 2 ∷ 4 ∷ 16 ∷ 9 ∷ 2 ∷ 0 ∷ 2 ∷ 2 ∷ 2 ∷ 1 ∷ 4 ∷ 0 ∷ 2 ∷ 4 ∷ 4 ∷ 1 ∷ 0 ∷ 0 ∷ 0
    ∷ 8 ∷ 0 ∷ []

unfoldable pub isalpha : ℕ → Bool
isalpha c = (leb b'A' c && leb c b'Z') || (leb b'a' c && leb c b'z')

unfoldable pub toupper : ℕ → ℕ
toupper c = if leb b'a' c && leb c b'z' then c - 32 else c

unfoldable pub marked : ℕ → ℕ → Bool
marked mask x = isalpha x && not (bit_and (get_or vsfn (x - b'A') 0) mask == 0)

abbrev pub vowel : ℕ → Bool
vowel = marked 1

abbrev pub same : ℕ → Bool
same = marked 2

abbrev pub varson : ℕ → Bool
varson = marked 4

abbrev pub frontv : ℕ → Bool
frontv = marked 8

abbrev pub noghf : ℕ → Bool
noghf = marked 16

-- The letters of the word, which the first loop copies; a NUL ends the word.
unfoldable pub letters : List ℕ → List ℕ
letters [] = []
letters (c ∷ word) =
    let rest = letters word in if c == 0 then [] else if isalpha c then toupper c ∷ rest else rest

-- The array and `n_start`, after the `switch` on the first letter.
unfoldable pub preprocess : List ℕ → List ℕ × ℕ
preprocess ntrans =
    let n = get_or ntrans 1 0 in
    let n1 = get_or ntrans 2 0 in
    if (n == b'P') || (n == b'K') || (n == b'G')
    then (if n1 == b'N' then (set ntrans 1 0, 2) else (ntrans, 1))
    else if n == b'A'
    then (if n1 == b'E' then (set ntrans 1 0, 2) else (ntrans, 1))
    else if n == b'W'
    then (if n1 == b'R'
        then (set ntrans 1 0, 2)
        else if n1 == b'H'
        then (set (set ntrans 2 n) 1 0, 2)
        else (ntrans, 1))
    else if n == b'X'
    then (set ntrans 1 b'S', 1)
    else (ntrans, 1)

-- What a round adds, and the new `KSFlag`.
abbrev pub Added : Type 0
Added = List ℕ × Bool

abbrev pub one : ℕ → Outcome Added
one c = ok (c ∷ [], false)

abbrev pub nothing : Outcome Added
nothing = ok ([], false)

-- `luaL_addchar` of a character that is not NUL.
unfoldable pub unless_nul : ℕ → Outcome Added
unless_nul n = if n == 0 then nothing else one n

module _ (ntrans : List ℕ) (n_start n_end : ℕ) where
  -- `n[k]`, `n[-1]`, where `n` is at the index `i`.
  abbrev pub ahead : ℕ → ℕ → ℕ
  ahead i k = get_or ntrans (i + k) 0

  abbrev pub before : ℕ → ℕ
  before i = get_or ntrans (i - 1) 0

  unfoldable pub case_c : ℕ → Outcome Added
  case_c i =
      if not (before i == b'S') || not (frontv (ahead i 1))
      then (if (ahead i 1 == b'I') || (ahead i 2 == b'A')
          then one b'X'
          else if frontv (ahead i 1)
          then one b'S'
          else if ahead i 1 == b'H'
          then one (
              if ((i == n_start) && not (vowel (ahead i 2))) || (before i == b'S')
              then b'K'
              else b'X')
          else one b'K')
      else nothing

  -- `n[-4]` is read before the array when `n` is one of its first letters.
  unfoldable pub not_h_before : ℕ → Outcome Added
  not_h_before i =
      if ltb i 4
      then stop undefined
      else if not (get_or ntrans (i - 4) 0 == b'H')
      then one b'F'
      else nothing

  unfoldable pub case_g : ℕ → Outcome Added
  case_g i =
      if (not (ahead i 1 == b'H') || vowel (ahead i 2))
        && (not (ahead i 1 == b'N')
            || (ltb (i + 1) n_end && (not (ahead i 2 == b'E') || not (ahead i 3 == b'D'))))
        && (not (before i == b'D') || not (frontv (ahead i 1)))
      then one (if frontv (ahead i 1) && not (ahead i 2 == b'G') then b'J' else b'K')
      else if (ahead i 1 == b'H') && not (noghf (before i))
      then not_h_before i
      else nothing

  unfoldable pub case_t : ℕ → Outcome Added
  case_t i =
      if (ahead i 1 == b'I') && ((ahead i 2 == b'O') || (ahead i 2 == b'A'))
      then one b'X'
      else if ahead i 1 == b'H'
      then one b'O'
      else if not (ahead i 1 == b'C') || not (ahead i 2 == b'H')
      then one b'T'
      else nothing

  -- The `switch` on `*n`.
  unfoldable pub switch : ℕ → ℕ → Outcome Added
  switch i n =
      if n == b'B'
      then (if ltb i n_end || not (before i == b'M') then one n else nothing)
      else if n == b'C'
      then case_c i
      else if n == b'D'
      then one (if (ahead i 1 == b'G') && frontv (ahead i 2) then b'J' else b'T')
      else if n == b'G'
      then case_g i
      else if n == b'H'
      then (if not (varson (before i)) && (not (vowel (before i)) || vowel (ahead i 1))
          then one b'H'
          else nothing)
      else if n == b'K'
      then (if not (before i == b'C') then one b'K' else nothing)
      else if n == b'P'
      then one (if ahead i 1 == b'H' then b'F' else b'P')
      else if n == b'Q'
      then one b'K'
      else if n == b'S'
      then one (
          if (ahead i 1 == b'H')
            || ((ahead i 1 == b'I') && ((ahead i 2 == b'O') || (ahead i 2 == b'A')))
          then b'X'
          else b'S')
      else if n == b'T'
      then case_t i
      else if n == b'V'
      then one b'F'
      else if (n == b'W') || (n == b'Y')
      then (if vowel (ahead i 1) then one n else nothing)
      else if n == b'X'
      then (if i == n_start then one b'S' else ok (b'K' ∷ [], true))
      else if n == b'Z'
      then one b'S'
      else nothing

  unfoldable pub round : Bool → ℕ → Outcome Added
  round true i = unless_nul (ahead i 0)
  round false i =
      let n = ahead i 0 in
      if (before i == n) && not (n == b'C')
      then nothing
      else if same n || ((i == n_start) && vowel n)
      then unless_nul n
      else switch i n

  -- `count` rounds from the index `i` on.
  unfoldable pub metaphone_loop : ℕ → Bool → ℕ → Outcome (List ℕ)
  metaphone_loop zero ks i = ok []
  metaphone_loop (suc count) ks i =
      round ks i >>= λ r. metaphone_loop count r.1 (i + 1) >>= λ more. ok (r.0 ++ more)

unfoldable pub rounds : List ℕ × ℕ → ℕ → Outcome (List ℕ)
rounds p n_end = metaphone_loop p.0 p.1 n_end (n_end + 1 - p.1) false p.1

unfoldable pub metaphone_letters : List ℕ → Outcome (List ℕ)
metaphone_letters [] = ok []
metaphone_letters (c ∷ rest) =
    rounds (preprocess (0 ∷ (c ∷ rest) ++ (0 ∷ 0 ∷ []))) (length (c ∷ rest) + 1)

unfoldable pub strcore_metaphone : List ℕ → Outcome (List ℕ)
strcore_metaphone word = metaphone_letters (letters word)
