-- ===== src/Arithmetic/Division.antt =====
-- The laws of integer division in src/math.c.
use lua_conmanorg.Arithmetic.{integer, ldiv, pushed, math_idiv}
use lua_conmanorg.Prelude.{
  ℕ, zero, suc, ◌-◌, ◌*◌, ◌/◌, ◌%◌, ◌^◌, ◌≤◌, ◌<◌, Bool, true, false, ltb, ltb→lt, ℤ, pos, negsuc,
  magnitude, is_negative, signed, differ, ◌+ℤ◌, ◌*ℤ◌, ok, stop, undefined, Bool-cases, ◌≡◌, ◌⊎◌,
  inl, inr, refl, sym, ap, subst, ◌∙◌, arith,
}
use lua_conmanorg.Prelude.Signed.{add_same_sign, rebuilt, times, sign_of, magnitude-signed}
use native.Mathlib.Nat.{mod-lt, div-add-mod', div-zero}

-- A 64-bit `long`.
unfoldable pub IsLong : ℤ → Type 0
IsLong (pos n) = n < 2 ^ 63
IsLong (negsuc n) = n < 2 ^ 63

-- What a division is to satisfy.
pub record Divides (numer denom quot rem : ℤ) : Type 0 where
  pub product : (quot *ℤ denom) +ℤ rem ≡ numer
  pub smaller : magnitude rem < magnitude denom
  pub same_sign : (rem ≡ pos 0) ⊎ (is_negative rem ≡ is_negative numer)

-- The result of `ldiv` where there is one.
truncated : ℤ → ℤ → ℤ × ℤ
truncated numer denom = (
  signed (differ (is_negative numer) (is_negative denom)) (magnitude numer / magnitude denom),
  signed (is_negative numer) (magnitude numer % magnitude denom),
)

truncated-Divides :
    (numer denom : ℤ)
    → 0 < magnitude denom
    → Divides numer denom (truncated numer denom).0 (truncated numer denom).1
unfolding truncated
truncated-Divides numer denom h =
    let q = magnitude numer / magnitude denom in
    let r = magnitude numer % magnitude denom in
    let s = is_negative numer in
    record {
      product =
          ap (λ z. z +ℤ signed s r) (times s q denom)
          ∙ add_same_sign s (q * magnitude denom) r
          ∙ ap (signed s) (div-add-mod' (magnitude numer) (magnitude denom))
          ∙ rebuilt numer;
      smaller =
          subst (λ m. m < magnitude denom) (sym (magnitude-signed s r))
            (mod-lt (magnitude numer) h);
      same_sign = sign_of s r;
    }

differ_true : (a b : Bool) → differ a b ≡ false → a ≡ b
unfolding differ
differ_true false false e = refl
differ_true false true e = cc
differ_true true false e = cc
differ_true true true e = refl

signed-IsLong : (s : Bool) (n : ℕ) → n < 2 ^ 63 → IsLong (signed s n)
unfolding IsLong signed
signed-IsLong s zero h = omega arith
signed-IsLong false (suc n) h = h
signed-IsLong true (suc n) h = omega arith

negative-IsLong : (n : ℕ) → n ≤ 2 ^ 63 → IsLong (signed true n)
unfolding IsLong signed
negative-IsLong zero h = omega arith
negative-IsLong (suc n) h = omega arith

magnitude-le : (n : ℤ) → IsLong n → magnitude n ≤ 2 ^ 63
unfolding IsLong magnitude
magnitude-le (pos n) h = omega arith
magnitude-le (negsuc n) h = omega arith

quotient_le : (n d : ℕ) → n / d ≤ n
quotient_le n zero = omega (arith, div-zero n)
quotient_le n (suc d) = grind (arith, div-add-mod' n (suc d))

ldiv_lem :
    (numer denom : ℤ)
    → IsLong numer
    → ((ldiv numer denom ≡ ok (truncated numer denom)) × IsLong (truncated numer denom).0)
      ⊎ ((is_negative numer ≡ is_negative denom)
          × (2 ^ 63 ≤ magnitude numer / magnitude denom)
          × (ldiv numer denom ≡ stop undefined))
unfolding ldiv truncated
ldiv_lem numer denom h =
    let q = magnitude numer / magnitude denom in
    elim (Bool-cases (differ (is_negative numer) (is_negative denom))) [
      | inl apart ↦ inl (
        rw apart refl,
        rw apart (
            negative-IsLong q (
              omega
                (arith, magnitude-le numer h, quotient_le (magnitude numer) (magnitude denom)))),
      )
      | inr alike ↦ elim (Bool-cases (ltb q (2 ^ 63))) [
        | inl fits ↦
            inl (rw alike (rw fits refl), rw alike (signed-IsLong false q (ltb→lt q (2 ^ 63) fits)))
        | inr over ↦ inr (
          differ_true (is_negative numer) (is_negative denom) alike,
          ground arith,
          rw alike (rw over refl),
        )
      ]
    ]

remainder-IsLong :
    (numer denom : ℤ) → IsLong denom → 0 < magnitude denom → IsLong (truncated numer denom).1
unfolding truncated
remainder-IsLong numer denom h k =
    signed-IsLong (is_negative numer) (magnitude numer % magnitude denom)
      (omega (arith, magnitude-le denom h, mod-lt (magnitude numer) k))

-- Only one division of magnitudes is too large.
overflow : (n d : ℕ) → n ≤ 2 ^ 63 → 0 < d → 2 ^ 63 ≤ n / d → (n ≡ 2 ^ 63) × (d ≡ 1)
overflow n zero h k e = absurd (omega arith)
overflow n (suc zero) h k e = (omega arith, refl)
overflow n (suc (suc d)) h k e =
    let twice : 2 * (n / suc (suc d)) ≤ n / suc (suc d) * suc (suc d) = grind arith in
    absurd (omega (arith, div-add-mod' n (suc (suc d))))

least_long :
    (numer denom : ℤ)
    → IsLong numer
    → is_negative numer ≡ is_negative denom
    → magnitude numer ≡ 2 ^ 63
    → magnitude denom ≡ 1
    → (numer ≡ negsuc (2 ^ 63 - 1)) × (denom ≡ negsuc 0)
unfolding IsLong is_negative magnitude
least_long (pos n) denom h s e f = absurd (omega arith)
least_long (negsuc n) (pos d) h s e f = cc
least_long (negsuc n) (negsuc d) h s e f = (ap negsuc (omega arith), ap negsuc (omega arith))

nonzero :
    (numer denom : ℤ) → 0 < magnitude denom → math_idiv numer denom ≡ pushed (ldiv numer denom)
unfolding magnitude math_idiv
nonzero numer (pos zero) h = absurd (omega arith)
nonzero numer (pos (suc d)) h = refl
nonzero numer (negsuc d) h = refl

-- For 64-bit integers and a denominator other than 0, `idiv` gives a quotient and a remainder that
-- are 64-bit integers, with numer = quot * denom + rem, a remainder smaller than the denominator, and
-- 0 or of the sign of the numerator; except for -2 ^ 63 by -1, where C does not say what happens.
pub math_idiv-Divides :
    (numer denom : ℤ)
    → IsLong numer
    → IsLong denom
    → 0 < magnitude denom
    → ((quot : ℤ) × (rem : ℤ) × (math_idiv numer denom ≡ ok (integer quot, integer rem))
        × Divides numer denom quot rem
        × IsLong quot
        × IsLong rem)
      ⊎ ((numer ≡ negsuc (2 ^ 63 - 1))
          × (denom ≡ negsuc 0)
          × (math_idiv numer denom ≡ stop undefined))
unfolding pushed
math_idiv-Divides numer denom h k l = elim (ldiv_lem numer denom h) [
  | inl done ↦ inl (
    (truncated numer denom).0,
    (truncated numer denom).1,
    nonzero numer denom l ∙ ap pushed done.0,
    truncated-Divides numer denom l,
    done.1,
    remainder-IsLong numer denom k l,
  )
  | inr over ↦
      let which = overflow (magnitude numer) (magnitude denom) (magnitude-le numer h) l over.1 in
      let least = least_long numer denom h over.0 which.0 which.1 in
      inr (least.0, least.1, nonzero numer denom l ∙ ap pushed over.2)
]
