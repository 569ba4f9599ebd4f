-- ===== src/Lfsr/Tests.antt =====
-- Runs of the random numbers, and the theorems about them at examples.
use lua_conmanorg.Lfsr.{shift_right, negate, next_state, lfsrnext, numbers}
use lua_conmanorg.Lfsr.Sequence.{Proper, numbers_in_range}
use lua_conmanorg.Lfsr.Period.{eight_bits, eight_bits_reach_all}
use lua_conmanorg.Prelude.{ℕ, suc, ◌<◌, ◌≡◌, ◌^◌, refl, [], ◌∷◌, All, get_elem?, some, arith}

first_numbers : numbers (eight_bits 1) 3 ≡ 180 ∷ 90 ∷ 45 ∷ []
unfolding numbers lfsrnext next_state shift_right negate
first_numbers = refl

eight_bits_reach_all_example :
    (n : ℕ) × (n < 510) × (get_elem? (numbers (eight_bits 9) (suc n)) n ≡ some 200)
eight_bits_reach_all_example =
    eight_bits_reach_all 9 200 (omega arith) (omega arith) (omega arith) (omega arith)

eight_bits-Proper : Proper 8 (eight_bits 9)
eight_bits-Proper = record {
  width = omega arith;
  mask_is = refl;
  fit = omega arith;
  top = omega arith;
}

numbers_in_range_example : All (λ x. (0 < x) × (x < 2 ^ 8)) (numbers (eight_bits 9) 5)
numbers_in_range_example =
    numbers_in_range 8 (eight_bits 9) 5 eight_bits-Proper (omega arith) (omega arith)
