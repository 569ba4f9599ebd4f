-- ===== src/StrCore/Metaphone/Codes.antt =====
-- The codes that `strcore_metaphone` of src/strcore.c gives.
use lua_conmanorg.StrCore.Metaphone.{
  isalpha, toupper, marked, letters, preprocess, Added, case_c, not_h_before, case_g, case_t,
  switch, unless_nul, round, metaphone_loop, rounds, metaphone_letters, strcore_metaphone,
}
use lua_conmanorg.Prelude.{
  ℕ, zero, suc, ◌+◌, ◌-◌, ◌≤◌, ◌<◌, Bool, true, false, List, [], ◌∷◌, ◌++◌, length, length-append,
  get_or, set, All, All-append, Outcome, ok, stop, undefined, lua_error, assertion, out_of_fuel,
  ◌>>=◌, ◌≡◌, ◌⊎◌, inl, inr, refl, ap, subst, ◌∙◌, arith,
}

abbrev pub IsUpper : ℕ → Type 0
IsUpper c = (b'A' ≤ c) × (c ≤ b'Z')

-- A NUL or a capital letter.
abbrev pub IsCell : ℕ → Type 0
IsCell c = (c ≡ 0) ⊎ IsUpper c

module _ (ntrans : List ℕ) (n_start n_end : ℕ) (cells : (i : ℕ) → IsCell (get_or ntrans i 0)) where
  -- What a round may do: add a capital letter or none, or read before the array at a `G` and an `H`.
  unfoldable Fine : ℕ → Outcome Added → Type 0
  Fine i (ok r) = (length r.0 ≤ 1) × All IsUpper r.0
  Fine i (stop undefined) = (i < 4) × (get_or ntrans i 0 ≡ b'G') × (get_or ntrans (i + 1) 0 ≡ b'H')
  Fine i (stop assertion) = ⊥
  Fine i (stop out_of_fuel) = ⊥
  Fine i (stop (lua_error message chars)) = ⊥

  case_c-Fine : (i : ℕ) → Fine i (case_c ntrans n_start n_end i)
  unfolding case_c Fine
  case_c-Fine i = ground arith

  case_g-Fine : (i : ℕ) → get_or ntrans i 0 ≡ b'G' → Fine i (case_g ntrans n_start n_end i)
  unfolding case_g not_h_before Fine
  case_g-Fine i g = ground arith

  case_t-Fine : (i : ℕ) → Fine i (case_t ntrans n_start n_end i)
  unfolding case_t Fine
  case_t-Fine i = ground arith

  switch-Fine : (i : ℕ) → Fine i (switch ntrans n_start n_end i (get_or ntrans i 0))
  unfolding switch Fine
  switch-Fine i = ground (arith, case_c-Fine i, case_g-Fine i, case_t-Fine i)

  unless_nul-Fine : (i j : ℕ) → Fine i (unless_nul (get_or ntrans j 0))
  unfolding unless_nul Fine
  unless_nul-Fine i j = ground (arith, cells j)

  round-Fine : (ks : Bool) (i : ℕ) → Fine i (round ntrans n_start n_end ks i)
  unfolding round Fine
  round-Fine true i = unless_nul-Fine i (i + 0)
  round-Fine false i =
      let here : get_or ntrans (i + 0) 0 ≡ get_or ntrans i 0 =
        ap (λ j. get_or ntrans j 0) (omega arith) in
      ground (arith, unless_nul-Fine i i, switch-Fine i, here)

  -- The NUL behind the letters adds nothing.
  last_round :
      (ks : Bool) (i : ℕ)
      → get_or ntrans (i + 0) 0 ≡ 0
      → (ks' : Bool) × (round ntrans n_start n_end ks i ≡ ok ([], ks'))
  unfolding round unless_nul marked isalpha switch
  last_round true i z = (false, rw z refl)
  last_round false i z = (false, rw z (ground arith))

-- What all rounds may do.
pub data Coded (ntrans : List ℕ) (n : ℕ) : Outcome (List ℕ) → Type 0 where
  codes : {out : List ℕ} → length out ≤ n → All IsUpper out → Coded ntrans n (ok out)
  overread :
      (i : ℕ)
      → i < 4
      → get_or ntrans i 0 ≡ b'G'
      → get_or ntrans (i + 1) 0 ≡ b'H'
      → Coded ntrans n (stop undefined)

module _ (ntrans : List ℕ) (n_start n_end : ℕ) (cells : (i : ℕ) → IsCell (get_or ntrans i 0)) where
  then_more :
      {n : ℕ} (xs : List ℕ) (o : Outcome (List ℕ))
      → length xs ≤ 1
      → All IsUpper xs
      → Coded ntrans n o
      → Coded ntrans (suc n) (o >>= λ more. ok (xs ++ more))
  then_more xs (ok out) h a (codes l u) =
      codes (omega (arith, l, length-append xs out)) (All-append IsUpper xs out a u)
  then_more xs (stop undefined) h a (overread i low g e) = overread i low g e
  then_more xs (stop assertion) h a c = elim c [ ]
  then_more xs (stop out_of_fuel) h a c = elim c [ ]
  then_more xs (stop (lua_error message chars)) h a c = elim c [ ]

  after_round :
      {n : ℕ} (i : ℕ) (r : Outcome Added) (next : Bool → Outcome (List ℕ))
      → Fine ntrans n_start n_end cells i r
      → ((ks : Bool) → Coded ntrans n (next ks))
      → Coded ntrans (suc n) (r >>= λ r. next r.1 >>= λ more. ok (r.0 ++ more))
  unfolding Fine
  after_round i (ok r) next f c = then_more r.0 (next r.1) f.0 f.1 (c r.1)
  after_round i (stop undefined) next f c = overread i f.0 f.1 f.2
  after_round i (stop assertion) next f c = elim f [ ]
  after_round i (stop out_of_fuel) next f c = elim f [ ]
  after_round i (stop (lua_error message chars)) next f c = elim f [ ]

  loop-Coded :
      (count : ℕ) (ks : Bool) (i : ℕ)
      → i + count ≡ n_end + 1
      → get_or ntrans n_end 0 ≡ 0
      → Coded ntrans (count - 1) (metaphone_loop ntrans n_start n_end count ks i)
  unfolding metaphone_loop
  loop-Coded zero ks i h z = codes (omega arith) tt
  loop-Coded (suc zero) ks i h z =
      let at_end : get_or ntrans (i + 0) 0 ≡ 0 = ap (λ j. get_or ntrans j 0) (omega arith) ∙ z in
      let last = last_round ntrans n_start n_end cells ks i at_end in
      rw last.1 (codes (omega arith) tt)
  loop-Coded (suc (suc c)) ks i h z =
      let one_less : suc (suc c) - 1 ≡ suc c = omega arith in
      let same : suc c - 1 ≡ c = omega arith in
      rw one_less (
        after_round i (round ntrans n_start n_end ks i)
          (λ ks. metaphone_loop ntrans n_start n_end (suc c) ks (i + 1))
          (round-Fine ntrans n_start n_end cells ks i)
          (λ ks.
            subst (λ n. Coded ntrans n (metaphone_loop ntrans n_start n_end (suc c) ks (i + 1)))
              same (loop-Coded (suc c) ks (i + 1) (omega arith) z)))

-- The array.
get_or-IsCell : (xs : List ℕ) → All IsCell xs → (i : ℕ) → IsCell (get_or xs i 0)
get_or-IsCell [] a i = inl refl
get_or-IsCell (x ∷ xs) a zero = a.0
get_or-IsCell (x ∷ xs) a (suc i) = get_or-IsCell xs a.1 i

set-IsCell : (xs : List ℕ) (j v : ℕ) → All IsCell xs → IsCell v → All IsCell (set xs j v)
set-IsCell [] j v a h = tt
set-IsCell (x ∷ xs) zero v a h = (h, a.1)
set-IsCell (x ∷ xs) (suc j) v a h = (a.0, set-IsCell xs j v a.1 h)

letters-IsUpper : (word : List ℕ) → All IsUpper (letters word)
unfolding letters isalpha toupper
letters-IsUpper [] = tt
letters-IsUpper (c ∷ word) = ground (arith, letters-IsUpper word)

cells_of : (xs : List ℕ) → All IsUpper xs → All IsCell (xs ++ (0 ∷ 0 ∷ []))
cells_of [] a = (inl refl, (inl refl, tt))
cells_of (x ∷ xs) a = (inr a.0, cells_of xs a.1)

preprocess-cells : (ntrans : List ℕ) → All IsCell ntrans → All IsCell (preprocess ntrans).0
unfolding preprocess
preprocess-cells ntrans a = ground (
  arith,
  set-IsCell ntrans 1 0 a (inl refl),
  set-IsCell ntrans 1 b'S' a (inr (omega arith, omega arith)),
  set-IsCell (set ntrans 2 (get_or ntrans 1 0)) 1 0
      (set-IsCell ntrans 2 (get_or ntrans 1 0) a (get_or-IsCell ntrans a 1)) (inl refl),
)

behind_all : (xs : List ℕ) → get_or (xs ++ (0 ∷ 0 ∷ [])) (length xs) 0 ≡ 0
behind_all [] = refl
behind_all (x ∷ xs) = behind_all xs

abbrev pub array : List ℕ → List ℕ
array xs = 0 ∷ xs ++ (0 ∷ 0 ∷ [])

start_at : (ntrans : List ℕ) → (1 ≤ (preprocess ntrans).1) × ((preprocess ntrans).1 ≤ 2)
unfolding preprocess
start_at ntrans = ground arith

end_stays :
    (c : ℕ) (xs : List ℕ) → get_or (preprocess (array (c ∷ xs))).0 (suc (suc (length xs))) 0 ≡ 0
unfolding preprocess
end_stays c [] = ground arith
end_stays c (d ∷ xs) = ground (arith, behind_all xs)

-- The array of the word after its first letter has been looked at.
unfoldable pub ntrans_of : List ℕ → List ℕ
ntrans_of word = (preprocess (array (letters word))).0

Coded-mono :
    {ntrans : List ℕ} {n m : ℕ} {o : Outcome (List ℕ)} → n ≤ m → Coded ntrans n o → Coded ntrans m o
Coded-mono h (codes l u) = codes (omega arith) u
Coded-mono h (overread i low g e) = overread i low g e

letters-Coded :
    (xs : List ℕ)
    → All IsUpper xs
    → Coded (preprocess (array xs)).0 (length xs) (metaphone_letters xs)
unfolding metaphone_letters rounds
letters-Coded [] a = codes (omega arith) tt
letters-Coded (c ∷ xs) a =
    let p = preprocess (array (c ∷ xs)) in
    let starts = start_at (array (c ∷ xs)) in
    let n_end : length (c ∷ xs) + 1 ≡ suc (suc (length xs)) = omega arith in
    let count = suc (suc (length xs)) + 1 - p.1 in
    let cells =
      get_or-IsCell p.0 (preprocess-cells (array (c ∷ xs)) (inl refl, cells_of (c ∷ xs) a)) in
    rw n_end (
      Coded-mono (omega (arith, starts.0)) (
        loop-Coded p.0 p.1 (suc (suc (length xs))) cells count false p.1 (omega (arith, starts.1))
          (end_stays c xs)))

-- `metaphone` gives capital letters, no more than the word has letters, or it reads before its array:
-- at a G that an H follows, among the first three letters.
pub metaphone-Coded :
    (word : List ℕ) → Coded (ntrans_of word) (length (letters word)) (strcore_metaphone word)
unfolding ntrans_of strcore_metaphone
metaphone-Coded word = letters-Coded (letters word) (letters-IsUpper word)
