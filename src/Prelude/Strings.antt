-- ===== src/Prelude/Strings.antt =====
-- C strings as lists of their characters, without the terminating zero.
use Prim.Native.Char.{code}
use Prim.Native.String.{String}
use Prim.Native.Nat.{ℕ, zero, suc, ◌+◌, ◌/◌, ◌%◌}
use lua_conmanorg.Prelude.Signed.{ℤ, pos, negsuc}
use lua_conmanorg.Prelude.Lists.{All}
use lua_conmanorg.Prelude.Tests.{ltb, ◌==◌, if◌then◌else◌}
use mathlib.Core.Path.{◌≡◌, refl}
use mathlib.Core.Bool.{Bool, true, false, ◌&&◌}
use mathlib.Core.List.{List, [], ◌∷◌}
use mathlib.Core.Option.{Option, none, some}
use native.Mathlib.Omega.{arith}

unfoldable pub same_string : List ℕ → List ℕ → Bool
same_string [] [] = true
same_string [] (y ∷ ys) = false
same_string (x ∷ xs) [] = false
same_string (x ∷ xs) (y ∷ ys) = (x == y) && same_string xs ys

pub same_string→eq : (xs ys : List ℕ) → same_string xs ys ≡ true → xs ≡ ys
unfolding same_string
same_string→eq [] [] e = refl
same_string→eq [] (y ∷ ys) e = cc
same_string→eq (x ∷ xs) [] e = cc
same_string→eq (x ∷ xs) (y ∷ ys) e = ground (arith, same_string→eq xs ys)

pub same_string_refl : (xs : List ℕ) → same_string xs xs ≡ true
unfolding same_string
same_string_refl [] = refl
same_string_refl (x ∷ xs) = ground (arith, same_string_refl xs)

-- Up to the first separator, and what follows it: `strchr`.
unfoldable pub split_at_first : ℕ → List ℕ → List ℕ × Option (List ℕ)
split_at_first c [] = ([], none)
split_at_first c (x ∷ xs) =
    let rest = split_at_first c xs in if x == c then ([], some xs) else (x ∷ rest.0, rest.1)

and_left : (a b : Bool) → (a && b) ≡ true → a ≡ true
and_left true b e = refl
and_left false b e = e

and_right : (a b : Bool) → (a && b) ≡ true → b ≡ true
and_right true b e = e
and_right false b e = cc

-- A property of all elements, by a test of each.
abbrev pub check : (ℕ → Bool) → List ℕ → Bool
check f [] = true
check f (x ∷ xs) = f x && check f xs

pub check→All {κ} :
    (P : ℕ → Type κ) (f : ℕ → Bool)
    → ((x : ℕ) → f x ≡ true → P x)
    → (xs : List ℕ) → check f xs ≡ true
    → All P xs
check→All P f h [] e = tt
check→All P f h (x ∷ xs) e =
    (h x (and_left (f x) (check f xs) e), check→All P f h xs (and_right (f x) (check f xs) e))

-- The characters of a literal.
abbrev pub codes : String → List ℕ
codes String.[] = []
codes (String.◌∷◌ c s) = code c ∷ codes s

-- What `%d` writes.
unfoldable pub digits_from : ℕ → ℕ → List ℕ → List ℕ
digits_from zero n acc = acc
digits_from (suc fuel) n acc =
    let more = digits_from fuel (n / 10) ((b'0' + n % 10) ∷ acc) in
    if ltb n 10 then (b'0' + n) ∷ acc else more

unfoldable pub decimal : ℤ → List ℕ
decimal (pos n) = digits_from (suc n) n []
decimal (negsuc n) = b'-' ∷ digits_from (suc (suc n)) (suc n) []
