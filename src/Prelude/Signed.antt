-- ===== src/Prelude/Signed.antt =====
-- C's signed integers, as far as the modelled code reads them.
use Prim.Native.Nat.{ℕ, zero, suc, ◌+◌, ◌*◌}
use mathlib.Core.Path.{◌≡◌, refl}
use mathlib.Core.Logic.{◌⊎◌, inl, inr}
use mathlib.Core.Bool.{Bool, true, false}
use native.Mathlib.Numerals.{unary_clauses}
use native.Mathlib.Omega.{arith}

-- `negsuc n` is -(n + 1).
pub data ℤ : Type 0 where
  pos : ℕ → ℤ
  negsuc : ℕ → ℤ

unfoldable pub magnitude : ℤ → ℕ
magnitude (pos n) = n
magnitude (negsuc n) = suc n

unfoldable pub is_negative : ℤ → Bool
is_negative (pos n) = false
is_negative (negsuc n) = true

-- `n` with a sign.
unfoldable pub signed : Bool → ℕ → ℤ
signed negative zero = pos 0
signed false (suc n) = pos (suc n)
signed true (suc n) = negsuc n

unfoldable pub differ : Bool → Bool → Bool
differ true false = true
differ false true = true
differ _ _ = false

-- Sums and products of signed numbers.
unfoldable pub minus : ℕ → ℕ → ℤ
minus n zero = pos n
minus zero (suc m) = negsuc m
minus (suc n) (suc m) = minus n m

infixl 6 ◌+ℤ◌
infixl 7 ◌*ℤ◌
unfoldable pub ◌+ℤ◌ : ℤ → ℤ → ℤ
pos n +ℤ pos m = pos (n + m)
pos n +ℤ negsuc m = minus n (suc m)
negsuc n +ℤ pos m = minus m (suc n)
negsuc n +ℤ negsuc m = negsuc (suc (n + m))

unfoldable pub ◌*ℤ◌ : ℤ → ℤ → ℤ
a *ℤ b = signed (differ (is_negative a) (is_negative b)) (magnitude a * magnitude b)

pub add_same_sign : (s : Bool) (a b : ℕ) → signed s a +ℤ signed s b ≡ signed s (a + b)
unfolding signed ◌+ℤ◌ minus
add_same_sign s zero zero = refl
add_same_sign false zero (suc b) = simp unary_clauses refl
add_same_sign true zero (suc b) = let none : 0 + suc b ≡ suc b = omega arith in rw none refl
add_same_sign false (suc a) zero = simp unary_clauses refl
add_same_sign true (suc a) zero = simp unary_clauses refl
add_same_sign false (suc a) (suc b) = simp unary_clauses refl
add_same_sign true (suc a) (suc b) =
    let both : suc a + suc b ≡ suc (suc (a + b)) = omega arith in rw both refl

pub rebuilt : (a : ℤ) → signed (is_negative a) (magnitude a) ≡ a
unfolding signed is_negative magnitude
rebuilt (pos zero) = refl
rebuilt (pos (suc n)) = refl
rebuilt (negsuc n) = refl

-- A sign times a sign.
pub times :
    (s : Bool) (q : ℕ) (denom : ℤ)
    → signed (differ s (is_negative denom)) q *ℤ denom ≡ signed s (q * magnitude denom)
unfolding ◌*ℤ◌ signed is_negative magnitude differ
times s zero (pos d) = let none : 0 * d ≡ 0 = omega arith in rw none refl
times s zero (negsuc d) = let none : 0 * suc d ≡ 0 = omega arith in rw none refl
times false (suc q) (pos d) = refl
times true (suc q) (pos d) = refl
times false (suc q) (negsuc d) = refl
times true (suc q) (negsuc d) = refl

pub sign_of : (s : Bool) (n : ℕ) → (signed s n ≡ pos 0) ⊎ (is_negative (signed s n) ≡ s)
unfolding signed is_negative
sign_of s zero = inl refl
sign_of false (suc n) = inr refl
sign_of true (suc n) = inr refl

pub magnitude-signed : (s : Bool) (n : ℕ) → magnitude (signed s n) ≡ n
unfolding signed magnitude
magnitude-signed s zero = refl
magnitude-signed false (suc n) = refl
magnitude-signed true (suc n) = refl

pub differ_self : (a b : Bool) → differ (differ a b) b ≡ a
unfolding differ
differ_self false false = refl
differ_self false true = refl
differ_self true false = refl
differ_self true true = refl
