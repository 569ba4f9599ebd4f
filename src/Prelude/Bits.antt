-- ===== src/Prelude/Bits.antt =====
-- Laws of `&`, `|` and `^` at variables, from the digit recursion that the native operations mean.
use Prim.Native.Nat.{
  min, max, digits, differ, bitwise, bit_and-bitwise, bit_or-bitwise, bit_xor-bitwise,
}
use Prim.Native.Nat.{ℕ, zero, suc, ◌+◌, ◌-◌, ◌*◌, ◌/◌, ◌%◌, ◌^◌, ◌≤◌, ◌<◌, bit_and, bit_or, bit_xor}
use native.Mathlib.Nat.{pow-suc, one-le-pow}
use mathlib.Core.Path.{◌≡◌, refl, sym, ap, ◌∙◌}
use mathlib.Core.Bool.{Bool, true, ◌&&◌}
use lua_conmanorg.Prelude.Tests.{◌==◌}
use native.Mathlib.Omega.{arith}

-- Any count of rounds from the first number on gives the same digits.
module _ (z : ℕ → ℕ) (f : ℕ → ℕ → ℕ) where
  digits_any_fuel : (n x y m : ℕ) → x ≤ n → x ≤ m → digits z f m x y ≡ digits z f n x y
  digits_any_fuel zero zero y zero p q = refl
  digits_any_fuel zero zero y (suc m) p q = refl
  digits_any_fuel zero (suc x) y m p q = absurd (omega arith)
  digits_any_fuel (suc n) zero y zero p q = refl
  digits_any_fuel (suc n) zero y (suc m) p q = refl
  digits_any_fuel (suc n) (suc x) y zero p q = absurd (omega arith)
  digits_any_fuel (suc n) (suc x) y (suc m) p q =
      ap (λ t. t * 2 + f (suc x % 2) (y % 2))
        (digits_any_fuel n (suc x / 2) (y / 2) m (omega arith) (omega arith))

  lowest_digit :
      (x y : ℕ)
      → digits z f (suc x) (suc x) y ≡ bitwise z f (suc x / 2) (y / 2) * 2 + f (suc x % 2) (y % 2)
  lowest_digit x y =
      ap (λ t. t * 2 + f (suc x % 2) (y % 2))
        (digits_any_fuel (suc x / 2) (suc x / 2) (y / 2) x (omega arith) (omega arith))

differ_lem : (x y : ℕ) → x < 2 → y < 2 → differ x y ≡ (x + y) % 2
differ_lem zero y p q = omega arith
differ_lem (suc zero) zero p q = refl
differ_lem (suc zero) (suc zero) p q = refl
differ_lem (suc zero) (suc (suc y)) p q = absurd (omega arith)
differ_lem (suc (suc x)) y p q = absurd (omega arith)

pub bit_or_step : (x y : ℕ) → bit_or x y ≡ bit_or (x / 2) (y / 2) * 2 + max (x % 2) (y % 2)
bit_or_step zero y = simp bit_or-bitwise (omega arith)
bit_or_step (suc x) y = simp bit_or-bitwise (lowest_digit (λ y. y) max x y)

pub bit_xor_step : (a b : ℕ) → bit_xor a b ≡ bit_xor (a / 2) (b / 2) * 2 + (a + b) % 2
bit_xor_step zero b = simp bit_xor-bitwise (omega arith)
bit_xor_step (suc a) b = omega (
  arith,
  bit_xor-bitwise (suc a) b,
  bit_xor-bitwise (suc a / 2) (b / 2),
  lowest_digit (λ b. b) differ a b,
  differ_lem (suc a % 2) (b % 2) (omega arith) (omega arith),
)

pub bit_and_step : (x y : ℕ) → bit_and x y ≡ bit_and (x / 2) (y / 2) * 2 + min (x % 2) (y % 2)
bit_and_step zero y = simp bit_and-bitwise (omega arith)
bit_and_step (suc x) y = simp bit_and-bitwise (lowest_digit (λ y. 0) min x y)

-- Two operations with the same digits agree; `n` bounds the first number.
pub zero-bit_and : (b : ℕ) → bit_and 0 b ≡ 0
zero-bit_and b = bit_and-bitwise 0 b

pub zero-bit_or : (b : ℕ) → bit_or 0 b ≡ b
zero-bit_or b = bit_or-bitwise 0 b

pub zero-bit_xor : (b : ℕ) → bit_xor 0 b ≡ b
zero-bit_xor b = bit_xor-bitwise 0 b

and_nothing : (bound x : ℕ) → x < bound → bit_and x 0 ≡ 0
and_nothing zero x h = absurd (omega arith)
and_nothing (suc bound) zero h = refl
and_nothing (suc bound) (suc x) h =
    let half = and_nothing bound (suc x / 2) (omega arith) in
    omega (arith, half, bit_and_step (suc x) 0)

pub bit_and-zero : (x : ℕ) → bit_and x 0 ≡ 0
bit_and-zero x = and_nothing (suc x) x (omega arith)

bit_xor_comm_fuel : (n a b : ℕ) → a ≤ n → b ≤ n → bit_xor a b ≡ bit_xor b a
bit_xor_comm_fuel zero zero zero p q = refl
bit_xor_comm_fuel zero zero (suc b) p q = absurd (omega arith)
bit_xor_comm_fuel zero (suc a) b p q = absurd (omega arith)
bit_xor_comm_fuel (suc n) a b p q = omega (
  arith,
  bit_xor_step a b,
  bit_xor_step b a,
  bit_xor_comm_fuel n (a / 2) (b / 2) (omega arith) (omega arith),
)

pub bit_xor_comm : (a b : ℕ) → bit_xor a b ≡ bit_xor b a
bit_xor_comm a b = bit_xor_comm_fuel (a + b) a b (omega arith) (omega arith)

pub bit_xor-zero : (a : ℕ) → bit_xor a 0 ≡ a
bit_xor-zero a = bit_xor_comm a 0 ∙ zero-bit_xor a

bit_xor_self_fuel : (n a : ℕ) → a ≤ n → bit_xor a a ≡ 0
bit_xor_self_fuel n zero h = refl
bit_xor_self_fuel zero (suc a) h = absurd (omega arith)
bit_xor_self_fuel (suc n) (suc a) h =
    omega (arith, bit_xor_step (suc a) (suc a), bit_xor_self_fuel n (suc a / 2) (omega arith))

pub bit_xor_self : (a : ℕ) → bit_xor a a ≡ 0
bit_xor_self a = bit_xor_self_fuel a a (omega arith)

-- The halves and the parity of an exclusive or.
pub bit_xor_half : (a b : ℕ) → bit_xor a b / 2 ≡ bit_xor (a / 2) (b / 2)
bit_xor_half a b = omega (arith, bit_xor_step a b)

pub bit_xor_parity : (a b : ℕ) → bit_xor a b % 2 ≡ (a + b) % 2
bit_xor_parity a b = omega (arith, bit_xor_step a b)

bit_xor_assoc_fuel :
    (n a b c : ℕ) → a ≤ n → b ≤ n → bit_xor (bit_xor a b) c ≡ bit_xor a (bit_xor b c)
bit_xor_assoc_fuel zero zero zero c p q = sym (zero-bit_xor (bit_xor 0 c))
bit_xor_assoc_fuel zero zero (suc b) c p q = absurd (omega arith)
bit_xor_assoc_fuel zero (suc a) b c p q = absurd (omega arith)
bit_xor_assoc_fuel (suc n) a b c p q =
    let halves : bit_xor (bit_xor a b / 2) (c / 2) ≡ bit_xor (a / 2) (bit_xor b c / 2) =
      ap (λ t. bit_xor t (c / 2)) (bit_xor_half a b)
      ∙ bit_xor_assoc_fuel n (a / 2) (b / 2) (c / 2) (omega arith) (omega arith)
      ∙ ap (bit_xor (a / 2)) (sym (bit_xor_half b c)) in
    omega (
      arith,
      bit_xor_step (bit_xor a b) c,
      bit_xor_step a (bit_xor b c),
      bit_xor_parity a b,
      bit_xor_parity b c,
      halves,
    )

pub bit_xor_assoc : (a b c : ℕ) → bit_xor (bit_xor a b) c ≡ bit_xor a (bit_xor b c)
bit_xor_assoc a b c = bit_xor_assoc_fuel (a + b) a b c (omega arith) (omega arith)

pub bit_xor_cancel : (a b : ℕ) → bit_xor (bit_xor a b) b ≡ a
bit_xor_cancel a b = bit_xor_assoc a b b ∙ ap (bit_xor a) (bit_xor_self b) ∙ bit_xor-zero a

-- A width is kept.
pub bit_xor-lt : (k a b : ℕ) → a < 2 ^ k → b < 2 ^ k → bit_xor a b < 2 ^ k
bit_xor-lt zero zero zero p q = omega arith
bit_xor-lt zero zero (suc b) p q = absurd (omega arith)
bit_xor-lt zero (suc a) b p q = absurd (omega arith)
bit_xor-lt (suc k) a b p q = omega (
  arith,
  pow-suc 2 k,
  bit_xor_step a b,
  bit_xor-lt k (a / 2) (b / 2) (omega (arith, pow-suc 2 k)) (omega (arith, pow-suc 2 k)),
)

-- Disjoint fields: `(q << k) | r` is a sum where `r` fits `k` bits.
double_shift : (q k : ℕ) → q * 2 ^ suc k ≡ 2 * (q * 2 ^ k)
double_shift q k = omega (arith, ap (λ (t : ℕ). q * t) (pow-suc 2 k))

bit_or-zero_fuel : (n a : ℕ) → a ≤ n → bit_or a 0 ≡ a
bit_or-zero_fuel n zero h = refl
bit_or-zero_fuel zero (suc a) h = absurd (omega arith)
bit_or-zero_fuel (suc n) (suc a) h =
    omega (arith, bit_or_step (suc a) 0, bit_or-zero_fuel n (suc a / 2) (omega arith))

pub bit_or-zero : (a : ℕ) → bit_or a 0 ≡ a
bit_or-zero a = bit_or-zero_fuel a a (omega arith)

pub bit_or_fields : (k q r : ℕ) → r < 2 ^ k → bit_or (q * 2 ^ k) r ≡ q * 2 ^ k + r
bit_or_fields zero q zero h = omega (arith, bit_or-zero (q * 1))
bit_or_fields zero q (suc r) h = absurd (omega arith)
bit_or_fields (suc k) q r h =
    ground (
      arith,
      double_shift q k,
      pow-suc 2 k,
      bit_or_step (q * 2 ^ suc k) r,
      bit_or_fields k q (r / 2),
    )

-- A mask of `k` ones keeps the low field, which is the remainder by `2 ^ k`.
mask_low_field : (k q r : ℕ) → r < 2 ^ k → bit_and (q * 2 ^ k + r) (2 ^ k - 1) ≡ r
mask_low_field zero q zero h = bit_and-zero (q * 1 + 0)
mask_low_field zero q (suc r) h = absurd (omega arith)
mask_low_field (suc k) q r h = ground (
  arith,
  double_shift q k,
  pow-suc 2 k,
  bit_and_step (q * 2 ^ suc k + r) (2 ^ suc k - 1),
  mask_low_field k q (r / 2),
)

pub bit_and_mask : (k a : ℕ) → bit_and a (2 ^ k - 1) ≡ a % 2 ^ k
bit_and_mask k a = ground (arith, one-le-pow k 2, mask_low_field k (a / 2 ^ k) (a % 2 ^ k))

-- A bit of the low field is that of the field alone.
pub bit_and_low_field :
    (n q r k : ℕ) → k < n → r < 2 ^ n → bit_and (q * 2 ^ n + r) (2 ^ k) ≡ bit_and r (2 ^ k)
bit_and_low_field zero q r k h p = absurd (omega arith)
bit_and_low_field (suc n) q r zero h p = omega (
  arith,
  double_shift q n,
  bit_and_step (q * 2 ^ suc n + r) 1,
  bit_and_step r 1,
  bit_and-zero ((q * 2 ^ suc n + r) / 2),
  bit_and-zero (r / 2),
)
bit_and_low_field (suc n) q r (suc k) h p = ground (
  arith,
  double_shift q n,
  pow-suc 2 n,
  pow-suc 2 k,
  bit_and_step (q * 2 ^ suc n + r) (2 ^ suc k),
  bit_and_step r (2 ^ suc k),
  bit_and_low_field n q (r / 2) k,
)

-- Over a small range, an equation is checked value by value.
unfoldable pub agrees_below : (f g : ℕ → ℕ) → ℕ → Bool
agrees_below f g zero = true
agrees_below f g (suc n) = (f n == g n) && agrees_below f g n

pub agrees_below→eq : (f g : ℕ → ℕ) (n x : ℕ) → agrees_below f g n ≡ true → x < n → f x ≡ g x
unfolding agrees_below
agrees_below→eq f g zero x e h = absurd (omega arith)
agrees_below→eq f g (suc n) x e h = ground (arith, agrees_below→eq f g n x)
