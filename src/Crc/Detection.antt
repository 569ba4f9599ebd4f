-- ===== src/Crc/Detection.antt =====
-- What the checksum of src/crc.c tells apart.
use lua_conmanorg.Crc.{complement32, crc_step, crc_loop, crc32}
use lua_conmanorg.Crc.Bitwise.{crc_step_lem, eight_steps, polynomial}
use lua_conmanorg.Crc.Resume.{complement32-lt, crc_loop-lt, crc_loop-append}
use lua_conmanorg.Prelude.{
  ℕ, zero, suc, ◌%◌, ◌^◌, ◌<◌, bit_xor, List, [], ◌∷◌, ◌++◌, All, ◌≡◌, ◌≢◌, sym, ap, ◌∙◌, arith,
}
use lua_conmanorg.Prelude.Bits.{bit_xor-lt, bit_xor_comm, bit_xor_cancel}
use lua_conmanorg.Prelude.Galois.{galois, iterate, galois-lt, galois_injective}

-- No two registers have the same successor.
iterate_injective :
    (n a b : ℕ)
    → a < 2 ^ 32
    → b < 2 ^ 32
    → iterate (galois polynomial) n a ≡ iterate (galois polynomial) n b
    → a ≡ b
unfolding iterate
iterate_injective zero a b p q e = e
iterate_injective (suc n) a b p q e =
    let small : polynomial < 2 ^ 32 = omega arith in
    galois_injective 31 polynomial a b (omega arith) p q (
      iterate_injective n (galois polynomial a) (galois polynomial b)
        (galois-lt 32 polynomial a small p) (galois-lt 32 polynomial b small q) e)

-- The same byte on two registers.
step_injective :
    (a b p : ℕ) → a < 2 ^ 32 → b < 2 ^ 32 → p < 256 → crc_step a p ≡ crc_step b p → a ≡ b
unfolding eight_steps
step_injective a b p h k s e =
    let same : bit_xor a p ≡ bit_xor b p =
      iterate_injective 8 (bit_xor a p) (bit_xor b p) (bit_xor-lt 32 a p h (omega arith))
        (bit_xor-lt 32 b p k (omega arith)) (sym (crc_step_lem a p s) ∙ e ∙ crc_step_lem b p s) in
    sym (bit_xor_cancel a p) ∙ ap (λ t. bit_xor t p) same ∙ bit_xor_cancel b p

-- Two bytes on the same register.
byte_injective :
    (crc x y : ℕ) → crc < 2 ^ 32 → x < 256 → y < 256 → crc_step crc x ≡ crc_step crc y → x ≡ y
unfolding eight_steps
byte_injective crc x y h p q e =
    let same : bit_xor crc x ≡ bit_xor crc y =
      iterate_injective 8 (bit_xor crc x) (bit_xor crc y) (bit_xor-lt 32 crc x h (omega arith))
        (bit_xor-lt 32 crc y h (omega arith))
        (sym (crc_step_lem crc x p) ∙ e ∙ crc_step_lem crc y q) in
    let swapped : bit_xor x crc ≡ bit_xor y crc = bit_xor_comm x crc ∙ same ∙ bit_xor_comm crc y in
    sym (bit_xor_cancel x crc) ∙ ap (λ t. bit_xor t crc) swapped ∙ bit_xor_cancel y crc

step-lt : (crc p : ℕ) → crc < 2 ^ 32 → p < 256 → crc_step crc p < 2 ^ 32
unfolding crc_loop
step-lt crc p h k = crc_loop-lt crc (p ∷ []) h (k, tt)

loop_injective :
    (a b : ℕ) (bytes : List ℕ)
    → a < 2 ^ 32
    → b < 2 ^ 32
    → All (λ p. p < 256) bytes
    → crc_loop a bytes ≡ crc_loop b bytes
    → a ≡ b
unfolding crc_loop
loop_injective a b [] p q s e = e
loop_injective a b (x ∷ rest) p q s e = step_injective a b x p q s.0 (
    loop_injective (crc_step a x) (crc_step b x) rest (step-lt a x p s.0) (step-lt b x q s.0) s.1 e)

complement_injective : (x y : ℕ) → x < 2 ^ 32 → y < 2 ^ 32 → complement32 x ≡ complement32 y → x ≡ y
unfolding complement32
complement_injective x y p q e = omega arith

same_byte :
    (before after : List ℕ) (x y initial : ℕ)
    → All (λ p. p < 256) before
    → All (λ p. p < 256) after
    → x < 256
    → y < 256
    → crc32 (before ++ (x ∷ after)) initial ≡ crc32 (before ++ (y ∷ after)) initial
    → x ≡ y
unfolding crc32 crc_loop
same_byte before after x y initial hb ha p q e =
    let start = complement32 (initial % 2 ^ 32) in
    let register = crc_loop start before in
    let small : register < 2 ^ 32 = crc_loop-lt start before (complement32-lt initial) hb in
    let whole = λ (z : ℕ). crc_loop-append start before (z ∷ after) in
    let sx = step-lt register x small p in
    let sy = step-lt register y small q in
    byte_injective register x y small p q (
      loop_injective (crc_step register x) (crc_step register y) after sx sy ha (
        complement_injective _ _ (crc_loop-lt _ after sx ha) (crc_loop-lt _ after sy ha)
          (ap complement32 (sym (whole x)) ∙ e ∙ ap complement32 (whole y))))

-- Two messages of bytes that differ in exactly one byte have different checksums from the same start:
-- a change of one byte is always detected.
pub crc32_detects_one_byte :
    (before after : List ℕ) (x y initial : ℕ)
    → All (λ p. p < 256) before
    → All (λ p. p < 256) after
    → x < 256
    → y < 256
    → x ≢ y
    → crc32 (before ++ (x ∷ after)) initial ≢ crc32 (before ++ (y ∷ after)) initial
crc32_detects_one_byte before after x y initial hb ha p q apart e =
    apart (same_byte before after x y initial hb ha p q e)
