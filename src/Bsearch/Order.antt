-- ===== src/Bsearch/Order.antt =====
-- strcmp() orders strings, and what a sorted table is.
use Prim.Native.Nat.{Ordering}
use lua_conmanorg.Bsearch.{Entry, strcmp}
use lua_conmanorg.Prelude.{ℕ, ◌≡◌, refl, Bool, true, false, ◌&&◌, List, [], ◌∷◌, All, arith}

pub strcmp_refl : (s : List ℕ) → strcmp s s ≡ Ordering.eq
unfolding strcmp
strcmp_refl [] = refl
strcmp_refl (x ∷ xs) = ground (arith, strcmp_refl xs)

pub strcmp→eq : (s t : List ℕ) → strcmp s t ≡ Ordering.eq → s ≡ t
unfolding strcmp
strcmp→eq [] [] e = refl
strcmp→eq [] (y ∷ t) e = cc
strcmp→eq (x ∷ s) [] e = cc
strcmp→eq (x ∷ s) (y ∷ t) e = ground (arith, strcmp→eq s t)

pub strcmp_flip : (s t : List ℕ) → strcmp s t ≡ Ordering.gt → strcmp t s ≡ Ordering.lt
unfolding strcmp
strcmp_flip [] [] e = cc
strcmp_flip [] (y ∷ t) e = cc
strcmp_flip (x ∷ s) [] e = refl
strcmp_flip (x ∷ s) (y ∷ t) e = ground (arith, strcmp_flip s t)

pub strcmp_turn : (s t : List ℕ) → strcmp s t ≡ Ordering.lt → strcmp t s ≡ Ordering.gt
unfolding strcmp
strcmp_turn [] [] e = cc
strcmp_turn [] (y ∷ t) e = refl
strcmp_turn (x ∷ s) [] e = cc
strcmp_turn (x ∷ s) (y ∷ t) e = ground (arith, strcmp_turn s t)

pub strcmp_trans :
    (s t u : List ℕ)
    → strcmp s t ≡ Ordering.lt
    → strcmp t u ≡ Ordering.lt
    → strcmp s u ≡ Ordering.lt
unfolding strcmp
strcmp_trans [] [] u e f = cc
strcmp_trans [] (y ∷ t) [] e f = cc
strcmp_trans [] (y ∷ t) (z ∷ u) e f = refl
strcmp_trans (x ∷ s) [] u e f = cc
strcmp_trans (x ∷ s) (y ∷ t) [] e f = cc
strcmp_trans (x ∷ s) (y ∷ t) (z ∷ u) e f = ground (arith, strcmp_trans s t u)

-- Each name stands before all that follow it.
abbrev pub Below : Entry → Entry → Type 0
Below a b = strcmp a.text b.text ≡ Ordering.lt

abbrev pub Sorted : List Entry → Type 0
Sorted [] = Unit {0}
Sorted (e ∷ rest) = All (Below e) rest × Sorted rest

-- A test of neighbours is enough.
abbrev is_less : Ordering → Bool
is_less Ordering.lt = true
is_less Ordering.eq = false
is_less Ordering.gt = false

abbrev ascends : Entry → List Entry → Bool
ascends e [] = true
ascends e (f ∷ rest) = is_less (strcmp e.text f.text) && ascends f rest

abbrev pub is_sorted : List Entry → Bool
is_sorted [] = true
is_sorted (e ∷ rest) = ascends e rest

All-Below : (a b : Entry) (rest : List Entry) → Below a b → All (Below b) rest → All (Below a) rest
All-Below a b [] h all = tt
All-Below a b (c ∷ rest) h all =
    (strcmp_trans a.text b.text c.text h all.0, All-Below a b rest h all.1)

ascends-Below :
    (e f : Entry) (rest : List Entry)
    → ascends e (f ∷ rest) ≡ true
    → Below e f × (ascends f rest ≡ true)
ascends-Below e f rest h = ground arith

pub is_sorted-Sorted : (table : List Entry) → is_sorted table ≡ true → Sorted table
is_sorted-Sorted [] h = tt
is_sorted-Sorted (e ∷ []) h = (tt, tt)
is_sorted-Sorted (e ∷ f ∷ rest) h =
    let first = ascends-Below e f rest h in
    let others = is_sorted-Sorted (f ∷ rest) first.1 in
    ((first.0, All-Below e f rest first.0 others.0), others)
