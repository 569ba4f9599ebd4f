-- ===== src/Lfsr/Period.antt =====
-- The period of the 8-bit generator of src/lfsr.c.
use lua_conmanorg.Lfsr.{Generator, next_state, lfsrnext, numbers}
use lua_conmanorg.Lfsr.Sequence.{next_state_lem}
use lua_conmanorg.Prelude.{
  ℕ, zero, suc, ◌+◌, ◌-◌, ◌<◌, some, get_elem?, ◌==◌, if◌then◌else◌, ◌≡◌, refl, sym, ap, ◌∙◌, arith,
}
use lua_conmanorg.Prelude.Bits.{agrees_below, agrees_below→eq}
use lua_conmanorg.Prelude.Galois.{galois, selected, iterate, galois-lt}

-- The number of steps from 1 to each number, found by a run.
unfoldable place_in : ℕ → ℕ → ℕ → ℕ → ℕ
place_in zero at target steps = 0
place_in (suc fuel) at target steps =
    let rest = place_in fuel (galois 0xb4 at) target (suc steps) in
    if at == target then steps else rest

unfoldable steps_to : ℕ → ℕ
steps_to target = place_in 255 1 target 0

reached : (x : ℕ) → x < 255 → iterate (galois 0xb4) (steps_to (suc x)) 1 ≡ suc x
unfolding agrees_below iterate galois selected steps_to place_in
reached x h = agrees_below→eq (λ x. iterate (galois 0xb4) (steps_to (suc x)) 1) suc 255 x refl h

-- `254 - (254 - n)` is `n` for no more than 254 steps.
steps_capped : (x : ℕ) → x < 255 → 254 - (254 - steps_to (suc x)) ≡ steps_to (suc x)
unfolding agrees_below galois selected steps_to place_in
steps_capped x h =
    agrees_below→eq (λ x. 254 - (254 - steps_to (suc x))) (λ x. steps_to (suc x)) 255 x refl h

steps_below : (x : ℕ) → x < 255 → steps_to (suc x) < 255
steps_below x h = omega (arith, steps_capped x h)

iterate_after : (f : ℕ → ℕ) (m n x : ℕ) → iterate f (m + n) x ≡ iterate f n (iterate f m x)
unfolding iterate
iterate_after f zero n x = let none : zero + n ≡ n = omega arith in ap (λ k. iterate f k x) none
iterate_after f (suc m) n x =
    let more : suc m + n ≡ suc (m + n) = omega arith in rw more (iterate_after f m n (f x))

full_turn : iterate (galois 0xb4) 255 1 ≡ 1
unfolding iterate galois selected
full_turn = refl

between :
    (s t : ℕ)
    → s < 255
    → t < 255
    → iterate (galois 0xb4) ((255 - steps_to (suc s)) + steps_to (suc t)) (suc s) ≡ suc t
between s t h k =
    let to_s = steps_to (suc s) in
    let around : to_s + (255 - to_s) ≡ 255 = omega (arith, steps_below s h) in
    iterate_after (galois 0xb4) (255 - to_s) (steps_to (suc t)) (suc s)
    ∙ ap (iterate (galois 0xb4) (steps_to (suc t))) (
        ap (iterate (galois 0xb4) (255 - to_s)) (sym (reached s h))
        ∙ sym (iterate_after (galois 0xb4) to_s (255 - to_s) 1)
        ∙ ap (λ n. iterate (galois 0xb4) n 1) around
        ∙ full_turn)
    ∙ reached t k

-- The generator with the 8-bit mask and taps.
abbrev pub eight_bits : ℕ → Generator
eight_bits x = record { mask = 0xff; taps = 0xb4; lfsr = x }

number_at :
    (n x : ℕ)
    → x < 256
    → get_elem? (numbers (eight_bits x) (suc n)) n ≡ some (iterate (galois 0xb4) (suc n) x)
unfolding numbers lfsrnext iterate
number_at zero x h = ap some (next_state_lem 8 0xb4 x (omega arith) (omega arith) h)
number_at (suc n) x h =
    let one = next_state_lem 8 0xb4 x (omega arith) (omega arith) h in
    let inside : next_state 0xff 0xb4 x < 256 =
      omega (arith, one, galois-lt 8 0xb4 x (omega arith) h) in
    number_at n (next_state 0xff 0xb4 x) inside
    ∙ ap (λ y. some (iterate (galois 0xb4) (suc n) y)) one

-- From every seed from 1 to 255 the 8-bit generator gives every number from 1 to 255, within its
-- first 510 numbers.
pub eight_bits_reach_all :
    (seed target : ℕ)
    → 0 < seed
    → seed < 256
    → 0 < target
    → target < 256
    → (n : ℕ) × (n < 510) × (get_elem? (numbers (eight_bits seed) (suc n)) n ≡ some target)
eight_bits_reach_all zero target a b c d = absurd (omega arith)
eight_bits_reach_all (suc s) zero a b c d = absurd (omega arith)
eight_bits_reach_all (suc s) (suc t) a b c d =
    let steps = (255 - steps_to (suc s)) + steps_to (suc t) in
    let there : suc (steps - 1) ≡ steps = omega (arith, steps_below s (omega arith)) in
    (
      steps - 1,
      omega (arith, steps_below s (omega arith), steps_below t (omega arith)),
      number_at (steps - 1) (suc s) b
          ∙ ap some (
              ap (λ n. iterate (galois 0xb4) n (suc s)) there
              ∙ between s t (omega arith) (omega arith)),
    )
