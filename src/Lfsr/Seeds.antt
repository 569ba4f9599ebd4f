-- ===== src/Lfsr/Seeds.antt =====
-- The generators that `lfsr` of src/lfsr.c makes from its arguments.
use lua_conmanorg.Lfsr.{
  Generator, shift_right, negate, next_state, lfsrnext, optinteger, default_to, choose_seed, sizes,
  lfsr, numbers,
}
use lua_conmanorg.Lfsr.Sequence.{Proper, numbers_in_range}
use lua_conmanorg.Prelude.{
  ℕ, zero, suc, ◌-◌, ◌%◌, ◌^◌, ◌<◌, bit_and, bit_xor, Option, none, some, ◌∷◌, All, replicate, ok,
  ◌≡◌, refl, ap, ap₂, ◌∙◌, arith,
}
use lua_conmanorg.Prelude.Bits.{bit_and_mask, zero-bit_and, bit_xor-zero}

-- The widths that there are.
pub data IsWidth : ℕ → Type 0 where
  eight : IsWidth 8
  sixteen : IsWidth 16
  thirty_two : IsWidth 32

-- The taps where none are given.
unfoldable pub own_taps : {bits : ℕ} → IsWidth bits → ℕ
own_taps eight = 0xb4
own_taps sixteen = 0xb400
own_taps thirty_two = 0xb4000021

-- The three cases of the `switch`.
pub lfsr_of_width :
    (urandom : Option ℕ) {bits : ℕ} (w : IsWidth bits) (seed taps : Option ℕ)
    → lfsr urandom (some bits) seed taps
      ≡ ok (record {
        mask = 2 ^ bits - 1;
        taps = default_to (optinteger taps 0) (own_taps w);
        lfsr = choose_seed urandom (optinteger seed 0);
      })
unfolding lfsr sizes own_taps optinteger
lfsr_of_width urandom eight seed taps = refl
lfsr_of_width urandom sixteen seed taps = refl
lfsr_of_width urandom thirty_two seed taps = refl

own_taps-Proper :
    {bits : ℕ} (w : IsWidth bits) (x : ℕ)
    → Proper bits (record { mask = 2 ^ bits - 1; taps = own_taps w; lfsr = x })
unfolding own_taps
own_taps-Proper eight x = record {
  width = omega arith;
  mask_is = refl;
  fit = omega arith;
  top = omega arith;
}
own_taps-Proper sixteen x = record {
  width = omega arith;
  mask_is = refl;
  fit = omega arith;
  top = omega arith;
}
own_taps-Proper thirty_two x = record {
  width = omega arith;
  mask_is = refl;
  fit = omega arith;
  top = omega arith;
}

chosen : (urandom : Option ℕ) (seed : ℕ) → 0 < seed → choose_seed urandom seed ≡ seed
unfolding choose_seed
chosen urandom zero h = absurd (omega arith)
chosen urandom (suc seed) h = refl

-- For 8, 16 or 32 bits, no taps and a seed from 1 to 2 ^ bits - 1, `lfsr` makes a generator, all of
-- whose numbers are from 1 to 2 ^ bits - 1.
lfsr_in_range :
    (urandom : Option ℕ) {bits : ℕ} (w : IsWidth bits) (seed n : ℕ)
    → 0 < seed
    → seed < 2 ^ bits
    → (g : Generator) × (lfsr urandom (some bits) (some seed) none ≡ ok g)
      × All (λ x. (0 < x) × (x < 2 ^ bits)) (numbers g n)
unfolding optinteger default_to
lfsr_in_range urandom {bits} w seed n h k =
    let same = chosen urandom seed h in
    (
      record {
        mask = 2 ^ bits - 1;
        taps = default_to 0 (own_taps w);
        lfsr = choose_seed urandom seed;
      },
      lfsr_of_width urandom w (some seed) none,
      numbers_in_range bits _ n (own_taps-Proper w (choose_seed urandom seed)) (omega arith)
          (omega arith),
    )

-- Zeros for ever.
no_bit_falls :
    (taps x : ℕ)
    → x % 2 ≡ 0
    → bit_xor (shift_right x) (bit_and (negate (bit_and x 1)) taps) ≡ shift_right x
unfolding negate
no_bit_falls taps x e =
    ap (λ b. bit_xor (shift_right x) (bit_and (negate b) taps)) (bit_and_mask 1 x ∙ e)
    ∙ ap (bit_xor (shift_right x)) (zero-bit_and taps)
    ∙ bit_xor-zero (shift_right x)

next_of_even :
    {bits : ℕ} (w : IsWidth bits) (taps x : ℕ)
    → x % 2 ^ suc bits ≡ 0
    → next_state (2 ^ bits - 1) taps x ≡ 0
unfolding next_state shift_right
next_of_even eight taps x e =
    ap (λ t. bit_and t (2 ^ 8 - 1)) (no_bit_falls taps x (omega arith))
    ∙ bit_and_mask 8 (shift_right x)
    ∙ ground arith
next_of_even sixteen taps x e =
    ap (λ t. bit_and t (2 ^ 16 - 1)) (no_bit_falls taps x (omega arith))
    ∙ bit_and_mask 16 (shift_right x)
    ∙ ground arith
next_of_even thirty_two taps x e =
    ap (λ t. bit_and t (2 ^ 32 - 1)) (no_bit_falls taps x (omega arith))
    ∙ bit_and_mask 32 (shift_right x)
    ∙ ground arith

remainder_of_zero : (n : ℕ) → 0 % n ≡ 0
remainder_of_zero zero = refl
remainder_of_zero (suc n) = omega arith

zeros :
    {bits : ℕ} (w : IsWidth bits) (g : Generator) (n : ℕ)
    → g.mask ≡ 2 ^ bits - 1
    → g.lfsr % 2 ^ suc bits ≡ 0
    → numbers g n ≡ replicate n 0
unfolding numbers lfsrnext
zeros w g zero m e = refl
zeros {bits} w g (suc n) m e =
    let first = ap (λ k. next_state k g.taps g.lfsr) m ∙ next_of_even w g.taps g.lfsr e in
    ap₂ (λ x xs. x ∷ xs) first
      (zeros w (lfsrnext g).1 n m
        (ap (λ x. x % 2 ^ suc bits) first ∙ remainder_of_zero (2 ^ suc bits)))

-- A seed that is not 0, but that has zeros in the low bits + 1 places, makes a generator that gives 0
-- for ever, whatever the taps are.
lfsr_of_wide_seed :
    (urandom : Option ℕ) {bits : ℕ} (w : IsWidth bits) (seed n : ℕ) (taps : Option ℕ)
    → 0 < seed
    → seed % 2 ^ suc bits ≡ 0
    → (g : Generator) × (lfsr urandom (some bits) (some seed) taps ≡ ok g)
      × (numbers g n ≡ replicate n 0)
unfolding optinteger
lfsr_of_wide_seed urandom {bits} w seed n taps h e =
    let same = chosen urandom seed h in
    (
      record {
        mask = 2 ^ bits - 1;
        taps = default_to (optinteger taps 0) (own_taps w);
        lfsr = choose_seed urandom seed;
      },
      lfsr_of_width urandom w (some seed) taps,
      zeros w _ n refl (ap (λ x. x % 2 ^ suc bits) same ∙ e),
    )
