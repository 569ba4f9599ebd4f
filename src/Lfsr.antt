-- ===== src/Lfsr.antt =====
-- The random numbers of src/lfsr.c, which a linear feedback shift register makes.
-- A Lua integer is kept as the natural number below 2 ^ 64 that has its bits.
pub mod Sequence
pub mod Period
pub mod Seeds
mod Tests
use lua_conmanorg.Prelude.{
  ℕ, zero, suc, ◌+◌, ◌-◌, ◌*◌, ◌/◌, ◌%◌, ◌^◌, bit_and, bit_xor, Bool, true, false, if◌then◌else◌,
  Option, none, some, List, [], ◌∷◌, ◌==◌, ltb, Outcome, ok, stop, assertion, ◌>>=◌,
}

-- The upvalues of the closure.
pub record Generator : Type 0 where
  mask : ℕ
  taps : ℕ
  lfsr : ℕ

-- `x >> 1` on a signed word keeps the sign.
unfoldable pub shift_right : ℕ → ℕ
shift_right x = if ltb x (2 ^ 63) then x / 2 else x / 2 + 2 ^ 63

unfoldable pub negate : ℕ → ℕ
negate x = (2 ^ 64 - x) % 2 ^ 64

-- The number that is returned, which is also the new upvalue.
unfoldable pub next_state : ℕ → ℕ → ℕ → ℕ
next_state mask taps lfsr =
    let lsb = bit_and lfsr 1 in
    bit_and (bit_xor (shift_right lfsr) (bit_and (negate lsb) taps)) mask

unfoldable pub lfsrnext : Generator → ℕ × Generator
lfsrnext g = let n = next_state g.mask g.taps g.lfsr in (n, record g { lfsr = n })

-- `luaL_optinteger`.
unfoldable pub optinteger : Option ℕ → ℕ → ℕ
optinteger none otherwise = otherwise
optinteger (some x) otherwise = x

unfoldable pub default_to : ℕ → ℕ → ℕ
default_to zero otherwise = otherwise
default_to (suc taps) otherwise = suc taps

-- `urandom` is the word that /dev/urandom gives, or `none` where it does not open.
unfoldable pub choose_seed : Option ℕ → ℕ → ℕ
choose_seed urandom zero = default_to (optinteger urandom 0) 1
choose_seed urandom (suc seed) = suc seed

unfoldable pub sizes : ℕ → ℕ → ℕ → Outcome Generator
sizes bits taps seed =
    if bits == 8
    then ok (record { mask = 0xff; taps = default_to taps 0xb4; lfsr = seed })
    else if bits == 16
    then ok (record { mask = 0xffff; taps = default_to taps 0xb400; lfsr = seed })
    else if bits == 32
    then ok (record { mask = 0xffffffff; taps = default_to taps 0xb4000021; lfsr = seed })
    else stop assertion

unfoldable pub lfsr : Option ℕ → Option ℕ → Option ℕ → Option ℕ → Outcome Generator
lfsr urandom bits seed taps =
    sizes (optinteger bits 32) (optinteger taps 0) (choose_seed urandom (optinteger seed 0))

-- The first numbers of a generator.
unfoldable pub numbers : Generator → ℕ → List ℕ
numbers g zero = []
numbers g (suc n) = let r = lfsrnext g in r.0 ∷ numbers r.1 n
