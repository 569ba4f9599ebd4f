-- ===== src/Lfsr/Sequence.antt =====
-- The sequence of numbers of src/lfsr.c.
use lua_conmanorg.Lfsr.{Generator, shift_right, negate, next_state, lfsrnext, numbers}
use lua_conmanorg.Prelude.{
  ℕ, zero, suc, ◌-◌, ◌*◌, ◌/◌, ◌%◌, ◌^◌, ◌<◌, ◌≤◌, bit_and, bit_xor, true, All, ltb, ◌≡◌, ◌≢◌, refl,
  sym, ap, ◌∙◌, arith,
}
use lua_conmanorg.Prelude.Bits.{
  bit_and_mask, bit_and_step, bit_and-zero, zero-bit_and, zero-bit_xor,
}
use lua_conmanorg.Prelude.Galois.{galois, selected, galois-lt, galois_injective}
use native.Mathlib.Nat.{pow-suc, one-le-pow, pow-le-pow_right, mod-eq_of_lt}

-- A generator as `lfsr` makes them for a width: the taps have the top bit and fit.
pub record Proper (bits : ℕ) (g : Generator) : Type 0 where
  pub width : bits < 64
  pub mask_is : g.mask ≡ 2 ^ bits - 1
  pub fit : g.taps < 2 ^ bits
  pub top : 2 ^ bits ≤ 2 * g.taps

-- All ones select every bit of a number.
all_ones : (n k x : ℕ) → x < 2 ^ k → k ≤ n → bit_and (2 ^ n - 1) x ≡ x
all_ones n zero zero h s = bit_and-zero (2 ^ n - 1)
all_ones n zero (suc x) h s = absurd (omega arith)
all_ones zero (suc k) x h s = absurd (omega arith)
all_ones (suc n) (suc k) x h s =
    let rest : bit_and (2 ^ n - 1) (x / 2) ≡ x / 2 =
      all_ones n k (x / 2) (omega (arith, pow-suc 2 k)) (omega arith) in
    let half : (2 ^ suc n - 1) / 2 ≡ 2 ^ n - 1 = omega (arith, pow-suc 2 n, one-le-pow n 2) in
    let odd : (2 ^ suc n - 1) % 2 ≡ 1 = omega (arith, pow-suc 2 n, one-le-pow n 2) in
    ground (arith, bit_and_step (2 ^ suc n - 1) x, ap (λ t. bit_and t (x / 2)) half)

two_pos : 0 < 2
two_pos = omega arith

tapped : (k taps b : ℕ) → k ≤ 64 → taps < 2 ^ k → b < 2 → bit_and (negate b) taps ≡ selected taps b
unfolding negate selected
tapped k taps zero w h p = zero-bit_and taps
tapped k taps (suc zero) w h p = all_ones 64 k taps h w
tapped k taps (suc (suc b)) w h p = absurd (omega arith)

-- Within the width, the code of `lfsrnext` is a Galois step.
pub next_state_lem :
    (k taps x : ℕ)
    → k < 64
    → taps < 2 ^ k
    → x < 2 ^ k
    → next_state (2 ^ k - 1) taps x ≡ galois taps x
unfolding next_state galois shift_right
next_state_lem k taps x w h p =
    let fits : 2 ^ k ≤ 2 ^ 63 = pow-le-pow_right two_pos {j = 63} (omega arith) in
    let positive : ltb x (2 ^ 63) ≡ true = ground arith in
    let small : galois taps x < 2 ^ k = galois-lt k taps x h p in
    rw positive (
      ap (λ (t : ℕ). bit_and (bit_xor (x / 2) t) (2 ^ k - 1))
        (ap (λ b. bit_and (negate b) taps) (bit_and_mask 1 x)
          ∙ tapped k taps (x % 2) (omega arith) h (omega arith))
      ∙ bit_and_mask k (galois taps x)
      ∙ mod-eq_of_lt small)

pub lfsrnext_lem :
    (bits : ℕ) (g : Generator)
    → Proper bits g
    → g.lfsr < 2 ^ bits
    → (lfsrnext g).0 ≡ galois g.taps g.lfsr
unfolding lfsrnext
lfsrnext_lem bits g p h =
    ap (λ m. next_state m g.taps g.lfsr) p.mask_is
    ∙ next_state_lem bits g.taps g.lfsr p.width p.fit h

lfsrnext-Proper : (bits : ℕ) (g : Generator) → Proper bits g → Proper bits (lfsrnext g).1
unfolding lfsrnext
lfsrnext-Proper bits g p = record { width = p.width; mask_is = p.mask_is; fit = p.fit; top = p.top }

state_is_number : (g : Generator) → (lfsrnext g).1.lfsr ≡ (lfsrnext g).0
unfolding lfsrnext
state_is_number g = refl

same_taps : (g : Generator) → (lfsrnext g).1.taps ≡ g.taps
unfolding lfsrnext
same_taps g = refl

same_state :
    (bits : ℕ) (g h : Generator)
    → Proper bits g
    → h.mask ≡ g.mask
    → h.taps ≡ g.taps
    → g.lfsr < 2 ^ bits
    → h.lfsr < 2 ^ bits
    → (lfsrnext g).0 ≡ (lfsrnext h).0
    → g.lfsr ≡ h.lfsr
same_state zero g h p m t s u e = omega arith
same_state (suc k) g h p m t s u e =
    let proper : Proper (suc k) h = record {
      width = p.width;
      mask_is = m ∙ p.mask_is;
      fit = omega (arith, p.fit, t);
      top = omega (arith, p.top, t);
    } in
    galois_injective k g.taps g.lfsr h.lfsr (omega (arith, p.top, pow-suc 2 k)) s u (
      sym (lfsrnext_lem (suc k) g p s)
      ∙ e
      ∙ lfsrnext_lem (suc k) h proper u
      ∙ ap (λ t. galois t h.lfsr) t)

-- No two states within the width of a proper generator, with the same mask and taps, give the same
-- number.
lfsrnext_injective :
    (bits : ℕ) (g h : Generator)
    → Proper bits g
    → h.mask ≡ g.mask
    → h.taps ≡ g.taps
    → g.lfsr < 2 ^ bits
    → h.lfsr < 2 ^ bits
    → g.lfsr ≢ h.lfsr
    → (lfsrnext g).0 ≢ (lfsrnext h).0
lfsrnext_injective bits g h p m t s u apart e = apart (same_state bits g h p m t s u e)

zero_stays : (taps : ℕ) → galois taps 0 ≡ 0
unfolding galois selected
zero_stays taps = zero-bit_xor 0

nonzero_stays :
    (bits taps x : ℕ)
    → 0 < x
    → x < 2 ^ bits
    → taps < 2 ^ bits
    → 2 ^ bits ≤ 2 * taps
    → 0 < galois taps x
nonzero_stays zero taps x a b c d = absurd (omega arith)
nonzero_stays (suc k) taps x a b c d =
    let never : galois taps x ≢ 0 = λ e.
      let same : x ≡ 0 =
        galois_injective k taps x 0 (omega (arith, pow-suc 2 k)) b (omega arith)
          (e ∙ sym (zero_stays taps)) in
      omega arith in
    ground arith

-- A proper generator in a state from 1 to 2 ^ bits - 1 gives numbers from 1 to 2 ^ bits - 1 for ever.
pub numbers_in_range :
    (bits : ℕ) (g : Generator) (n : ℕ)
    → Proper bits g
    → 0 < g.lfsr
    → g.lfsr < 2 ^ bits
    → All (λ x. (0 < x) × (x < 2 ^ bits)) (numbers g n)
unfolding numbers
numbers_in_range bits g zero p s u = tt
numbers_in_range bits g (suc n) p s u =
    let step = lfsrnext_lem bits g p u in
    let positive : 0 < (lfsrnext g).0 =
      omega (arith, step, nonzero_stays bits g.taps g.lfsr s u p.fit p.top) in
    let below : (lfsrnext g).0 < 2 ^ bits =
      omega (arith, step, galois-lt bits g.taps g.lfsr p.fit u) in
    (
      (positive, below),
      numbers_in_range bits (lfsrnext g).1 n (lfsrnext-Proper bits g p)
          (omega (arith, state_is_number g)) (omega (arith, state_is_number g)),
    )
