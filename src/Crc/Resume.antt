-- ===== src/Crc/Resume.antt =====
-- Checksums of src/crc.c in parts: the second argument continues an earlier checksum.
use lua_conmanorg.Crc.{complement32, crc_step, crc_loop, crc32}
use lua_conmanorg.Crc.Bitwise.{crc_step_lem, eight_steps, polynomial}
use lua_conmanorg.Prelude.{
  ℕ, zero, suc, ◌%◌, ◌^◌, ◌<◌, bit_xor, List, [], ◌∷◌, ◌++◌, All, ◌≡◌, refl, sym, ap, ◌∙◌, arith,
}
use lua_conmanorg.Prelude.Bits.{bit_xor-lt}
use lua_conmanorg.Prelude.Galois.{galois, iterate, galois-lt}

iterate-lt : (taps k n x : ℕ) → taps < 2 ^ k → x < 2 ^ k → iterate (galois taps) n x < 2 ^ k
unfolding iterate
iterate-lt taps k zero x h p = p
iterate-lt taps k (suc n) x h p = iterate-lt taps k n (galois taps x) h (galois-lt k taps x h p)

pub crc_loop-lt :
    (crc : ℕ) (bytes : List ℕ)
    → crc < 2 ^ 32
    → All (λ p. p < 256) bytes
    → crc_loop crc bytes < 2 ^ 32
unfolding crc_loop eight_steps
crc_loop-lt crc [] h b = h
crc_loop-lt crc (p ∷ rest) h b = rw (crc_step_lem crc p b.0) (
    crc_loop-lt (iterate (galois polynomial) 8 (bit_xor crc p)) rest
      (iterate-lt polynomial 32 8 (bit_xor crc p) (omega arith)
        (bit_xor-lt 32 crc p h (omega (arith, b.0))))
      b.1)

pub crc_loop-append :
    (crc : ℕ) (xs ys : List ℕ) → crc_loop crc (xs ++ ys) ≡ crc_loop (crc_loop crc xs) ys
unfolding crc_loop
crc_loop-append crc [] ys = refl
crc_loop-append crc (x ∷ xs) ys = crc_loop-append (crc_step crc x) xs ys

complement_twice : (x : ℕ) → x < 2 ^ 32 → complement32 (complement32 x % 2 ^ 32) ≡ x
unfolding complement32
complement_twice x h = omega arith

pub complement32-lt : (x : ℕ) → complement32 (x % 2 ^ 32) < 2 ^ 32
unfolding complement32
complement32-lt x = omega arith

-- The checksum of two parts one after the other is the checksum of the second part, continued from
-- the checksum of the first, which was itself continued from any value.
crc32-append :
    (xs ys : List ℕ) (initial : ℕ)
    → All (λ p. p < 256) xs
    → crc32 (xs ++ ys) initial ≡ crc32 ys (crc32 xs initial)
unfolding crc32
crc32-append xs ys initial h =
    let register = complement32 (initial % 2 ^ 32) in
    ap complement32 (
      crc_loop-append register xs ys
      ∙ ap (λ r. crc_loop r ys)
          (sym (
            complement_twice (crc_loop register xs)
              (crc_loop-lt register xs (complement32-lt initial) h))))
