-- ===== src/Prelude/Galois.antt =====
-- The Galois step of a linear feedback shift register, which the CRC and the random numbers share.
use lua_conmanorg.Prelude.Bits.{
  bit_xor_half, bit_xor_parity, bit_xor-zero, bit_xor_assoc, bit_xor_comm, bit_xor_self,
  bit_xor_cancel, bit_xor-lt, zero-bit_xor,
}
use Prim.Native.Nat.{ℕ, zero, suc, ◌+◌, ◌*◌, ◌/◌, ◌%◌, ◌^◌, ◌≤◌, ◌<◌, bit_xor}
use native.Mathlib.Nat.{pow-suc}
use mathlib.Core.Path.{◌≡◌, refl, sym, ap, ap₂, ◌∙◌}
use mathlib.Core.Logic.{◌≢◌}
use native.Mathlib.Omega.{arith}

-- Shift right, and add the taps when a one falls out.
unfoldable pub selected : ℕ → ℕ → ℕ
selected taps zero = 0
selected taps (suc bit) = taps

unfoldable pub galois : ℕ → ℕ → ℕ
galois taps x = bit_xor (x / 2) (selected taps (x % 2))

unfoldable pub iterate : (ℕ → ℕ) → ℕ → ℕ → ℕ
iterate f zero x = x
iterate f (suc n) x = iterate f n (f x)

selected_linear :
    (taps a b : ℕ)
    → selected taps ((a + b) % 2) ≡ bit_xor (selected taps (a % 2)) (selected taps (b % 2))
unfolding selected
selected_linear taps a b =
    by_parity (a % 2) (b % 2) ((a + b) % 2) (omega arith) (omega arith) (omega arith)
  where
    by_parity :
        (x y z : ℕ)
        → x < 2
        → y < 2
        → z ≡ (x + y) % 2
        → selected taps z ≡ bit_xor (selected taps x) (selected taps y)
    by_parity zero zero z p q e = rw e (sym (zero-bit_xor 0))
    by_parity zero (suc zero) z p q e = rw e (sym (zero-bit_xor taps))
    by_parity (suc zero) zero z p q e = rw e (sym (bit_xor-zero taps))
    by_parity (suc zero) (suc zero) z p q e = rw e (sym (bit_xor_self taps))
    by_parity zero (suc (suc y)) z p q e = absurd (omega arith)
    by_parity (suc zero) (suc (suc y)) z p q e = absurd (omega arith)
    by_parity (suc (suc x)) y z p q e = absurd (omega arith)

pub xor_swap :
    (a b c d : ℕ) → bit_xor (bit_xor a b) (bit_xor c d) ≡ bit_xor (bit_xor a c) (bit_xor b d)
xor_swap a b c d =
    bit_xor_assoc a b (bit_xor c d)
    ∙ ap (bit_xor a)
        (sym (bit_xor_assoc b c d) ∙ ap (λ t. bit_xor t d) (bit_xor_comm b c) ∙ bit_xor_assoc c b d)
    ∙ sym (bit_xor_assoc a c (bit_xor b d))

pub galois_linear :
    (taps a b : ℕ) → galois taps (bit_xor a b) ≡ bit_xor (galois taps a) (galois taps b)
unfolding galois
galois_linear taps a b =
    ap₂ bit_xor (bit_xor_half a b)
      (ap (selected taps) (bit_xor_parity a b) ∙ selected_linear taps a b)
    ∙ xor_swap (a / 2) (b / 2) (selected taps (a % 2)) (selected taps (b % 2))

pub iterate-galois_linear :
    (taps n a b : ℕ)
    → iterate (galois taps) n (bit_xor a b)
      ≡ bit_xor (iterate (galois taps) n a) (iterate (galois taps) n b)
unfolding iterate
iterate-galois_linear taps zero a b = refl
iterate-galois_linear taps (suc n) a b =
    ap (iterate (galois taps) n) (galois_linear taps a b)
    ∙ iterate-galois_linear taps n (galois taps a) (galois taps b)

-- Nothing falls out of a number with `n` zeros at the bottom.
pub galois_even : (taps a : ℕ) → galois taps (2 * a) ≡ a
unfolding galois selected
galois_even taps a = ap₂ (λ h l. bit_xor h (selected taps l)) half none_falls ∙ bit_xor-zero a
  where
    half : 2 * a / 2 ≡ a
    half = omega arith

    none_falls : 2 * a % 2 ≡ 0
    none_falls = omega arith

pub selected-lt : (k taps x : ℕ) → taps < 2 ^ k → selected taps x < 2 ^ k
unfolding selected
selected-lt k taps zero h = omega arith
selected-lt k taps (suc x) h = h

-- The taps fit the width, and so does the successor.
pub galois-lt : (k taps a : ℕ) → taps < 2 ^ k → a < 2 ^ k → galois taps a < 2 ^ k
unfolding galois
galois-lt k taps a h p =
    bit_xor-lt k (a / 2) (selected taps (a % 2)) (omega arith) (selected-lt k taps (a % 2) h)

-- With the top bit among the taps, no two numbers have the same successor.
pub galois_injective :
    (k taps a b : ℕ)
    → 2 ^ k ≤ taps
    → a < 2 ^ suc k
    → b < 2 ^ suc k
    → galois taps a ≡ galois taps b
    → a ≡ b
unfolding galois selected
galois_injective k taps a b top p q e = by_parity (a % 2) (b % 2) refl refl e
  where
    half : (x : ℕ) → x < 2 ^ suc k → x / 2 < 2 ^ k
    half x h = omega (arith, pow-suc 2 k)

    too_small : (x y : ℕ) → x < 2 ^ k → y < 2 ^ k → bit_xor x taps ≢ y
    too_small x y s t d =
        let taps_is : taps ≡ bit_xor y x =
          sym (bit_xor_cancel taps x) ∙ ap (λ z. bit_xor z x) (bit_xor_comm taps x ∙ d) in
        omega (arith, bit_xor-lt k y x t s)

    by_parity :
        (x y : ℕ)
        → a % 2 ≡ x
        → b % 2 ≡ y
        → bit_xor (a / 2) (selected taps x) ≡ bit_xor (b / 2) (selected taps y)
        → a ≡ b
    by_parity zero zero s t d = omega (arith, sym (bit_xor-zero (a / 2)) ∙ d ∙ bit_xor-zero (b / 2))
    by_parity zero (suc y) s t d =
        absurd (too_small (b / 2) (a / 2) (half b q) (half a p) (sym d ∙ bit_xor-zero (a / 2)))
    by_parity (suc x) zero s t d =
        absurd (too_small (a / 2) (b / 2) (half a p) (half b q) (d ∙ bit_xor-zero (b / 2)))
    by_parity (suc x) (suc y) s t d =
        let same : a / 2 ≡ b / 2 =
          sym (bit_xor_cancel (a / 2) taps)
          ∙ ap (λ z. bit_xor z taps) d
          ∙ bit_xor_cancel (b / 2) taps in
        omega arith
