-- ===== src/Arithmetic.antt =====
-- Integer division of src/math.c.
pub mod Division
pub mod Seed
mod Tests
use lua_conmanorg.Prelude.{
  ℕ, zero, suc, ◌+◌, ◌-◌, ◌*◌, ◌/◌, ◌%◌, ◌^◌, Bool, true, false, ltb, leb, if◌then◌else◌, ℤ, pos,
  negsuc, magnitude, is_negative, signed, differ, Outcome, ok, stop, undefined,
}

-- What the two results are on the Lua stack: an integer, or one of the two infinities.
pub data Number : Type 0 where
  integer : ℤ → Number
  plus_huge : Number
  minus_huge : Number

-- C's `ldiv` rounds to zero. The one quotient that does not fit a `long`, -2 ^ 63 / -1, has no
-- defined result.
unfoldable pub ldiv : ℤ → ℤ → Outcome (ℤ × ℤ)
ldiv numer denom =
    let quot = magnitude numer / magnitude denom in
    let rem = magnitude numer % magnitude denom in
    if differ (is_negative numer) (is_negative denom)
    then ok (signed true quot, signed (is_negative numer) rem)
    else if ltb quot (2 ^ 63)
    then ok (signed false quot, signed (is_negative numer) rem)
    else stop undefined

unfoldable pub pushed : Outcome (ℤ × ℤ) → Outcome (Number × Number)
pushed (ok r) = ok (integer r.0, integer r.1)
pushed (stop s) = stop s

unfoldable pub by_zero : ℤ → Number × Number
by_zero (pos n) = (plus_huge, plus_huge)
by_zero (negsuc n) = (minus_huge, minus_huge)

unfoldable pub math_idiv : ℤ → ℤ → Outcome (Number × Number)
math_idiv numer (pos zero) = ok (by_zero numer)
math_idiv numer (pos (suc d)) = pushed (ldiv numer (pos (suc d)))
math_idiv numer (negsuc d) = pushed (ldiv numer (negsuc d))
