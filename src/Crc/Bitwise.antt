-- ===== src/Crc/Bitwise.antt =====
-- The table of src/crc.c against the bit-by-bit definition of the CRC.
use lua_conmanorg.Crc.{m_crc32_table, complement32, crc_step, crc_loop, crc32}
use lua_conmanorg.Prelude.{
  ℕ, zero, suc, ◌+◌, ◌-◌, ◌*◌, ◌/◌, ◌%◌, ◌^◌, ◌<◌, bit_and, bit_xor, List, [], ◌∷◌, All, get_or,
  ◌≡◌, refl, sym, ap, ap₂, ◌∙◌, arith,
}
use lua_conmanorg.Prelude.Bits.{
  agrees_below, agrees_below→eq, bit_xor_half, bit_xor_step, bit_and_mask, bit_xor-zero,
}
use lua_conmanorg.Prelude.Galois.{galois, selected, iterate, galois_even, iterate-galois_linear}
use native.Mathlib.Nat.{pow-suc}

-- The polynomial of IEEE 802.3 with its bits reversed.
abbrev pub polynomial : ℕ
polynomial = 0xedb88320

-- Eight bits through the register, lowest first.
unfoldable pub eight_steps : ℕ → ℕ
eight_steps = iterate (galois polynomial) 8

unfoldable pub bitwise_loop : ℕ → List ℕ → ℕ
bitwise_loop register [] = register
bitwise_loop register (p ∷ rest) = bitwise_loop (eight_steps (bit_xor register p)) rest

unfoldable pub bitwise_crc32 : List ℕ → ℕ
bitwise_crc32 bytes = complement32 (bitwise_loop 0xffffffff bytes)

-- The table holds the register after one byte.
table_entry : (i : ℕ) → i < 256 → get_or m_crc32_table i 0 ≡ eight_steps i
unfolding agrees_below m_crc32_table eight_steps iterate galois selected
table_entry i h =
    agrees_below→eq (λ i. get_or m_crc32_table i 0) (iterate (galois polynomial) 8) 256 i refl h

twice : (n a : ℕ) → 2 ^ suc n * a ≡ 2 * (2 ^ n * a)
twice n a = grind arith

-- Zeros at the bottom are shifted out.
shift_out : (n a : ℕ) → iterate (galois polynomial) n (2 ^ n * a) ≡ a
unfolding iterate
shift_out zero a = omega arith
shift_out (suc n) a =
    ap (λ t. iterate (galois polynomial) n (galois polynomial t)) (twice n a)
    ∙ ap (iterate (galois polynomial) n) (galois_even polynomial (2 ^ n * a))
    ∙ shift_out n a

-- A word is its upper part and its lower byte.
xor_of_fields : (k q r : ℕ) → r < 2 ^ k → bit_xor (2 ^ k * q) r ≡ 2 ^ k * q + r
xor_of_fields zero q zero h = bit_xor-zero (1 * q) ∙ omega arith
xor_of_fields zero q (suc r) h = absurd (omega arith)
xor_of_fields (suc k) q r h =
    let half : 2 ^ suc k * q / 2 ≡ 2 ^ k * q = omega (arith, twice k q) in
    let rest : bit_xor (2 ^ suc k * q / 2) (r / 2) ≡ 2 ^ k * q + r / 2 =
      ap (λ t. bit_xor t (r / 2)) half ∙ xor_of_fields k q (r / 2) (omega (arith, pow-suc 2 k)) in
    omega (arith, twice k q, bit_xor_step (2 ^ suc k * q) r)

pub eight_steps_by_table :
    (x : ℕ) → eight_steps x ≡ bit_xor (x / 2 ^ 8) (get_or m_crc32_table (bit_and x 0xff) 0)
unfolding eight_steps
eight_steps_by_table x =
    let fields : x ≡ bit_xor (2 ^ 8 * (x / 2 ^ 8)) (x % 2 ^ 8) =
      omega arith ∙ sym (xor_of_fields 8 (x / 2 ^ 8) (x % 2 ^ 8) (omega arith)) in
    ap (iterate (galois polynomial) 8) fields
    ∙ iterate-galois_linear polynomial 8 (2 ^ 8 * (x / 2 ^ 8)) (x % 2 ^ 8)
    ∙ ap₂ bit_xor (shift_out 8 (x / 2 ^ 8)) (
        sym (table_entry (x % 2 ^ 8) (omega arith))
        ∙ ap (λ i. get_or m_crc32_table i 0) (sym (bit_and_mask 8 x)))

-- A byte changes only the low eight bits.
unfoldable halve : ℕ → ℕ → ℕ
halve zero x = x
halve (suc n) x = halve n (x / 2)

halve-bit_xor : (n a b : ℕ) → halve n (bit_xor a b) ≡ bit_xor (halve n a) (halve n b)
unfolding halve
halve-bit_xor zero a b = refl
halve-bit_xor (suc n) a b = ap (halve n) (bit_xor_half a b) ∙ halve-bit_xor n (a / 2) (b / 2)

halve_eight : (x : ℕ) → halve 8 x ≡ x / 2 ^ 8
unfolding halve
halve_eight x = omega arith

xor_high : (crc p : ℕ) → p < 256 → bit_xor crc p / 2 ^ 8 ≡ crc / 2 ^ 8
xor_high crc p h =
    let no_high : halve 8 p ≡ 0 = halve_eight p ∙ omega arith in
    sym (halve_eight (bit_xor crc p))
    ∙ halve-bit_xor 8 crc p
    ∙ ap₂ bit_xor (halve_eight crc) no_high
    ∙ bit_xor-zero (crc / 2 ^ 8)

pub crc_step_lem : (crc p : ℕ) → p < 256 → crc_step crc p ≡ eight_steps (bit_xor crc p)
unfolding crc_step
crc_step_lem crc p h =
    ap (λ t. bit_xor t (get_or m_crc32_table (bit_and (bit_xor crc p) 0xff) 0))
      (sym (xor_high crc p h))
    ∙ sym (eight_steps_by_table (bit_xor crc p))

pub crc_loop_lem :
    (crc : ℕ) (bytes : List ℕ)
    → All (λ p. p < 256) bytes
    → crc_loop crc bytes ≡ bitwise_loop crc bytes
unfolding crc_loop bitwise_loop
crc_loop_lem crc [] h = refl
crc_loop_lem crc (p ∷ rest) h =
    ap (λ r. crc_loop r rest) (crc_step_lem crc p h.0)
    ∙ crc_loop_lem (eight_steps (bit_xor crc p)) rest h.1

-- The table-driven checksum of bytes, from no earlier checksum, is the bit-by-bit one.
pub crc32-bitwise :
    (bytes : List ℕ) → All (λ p. p < 256) bytes → crc32 bytes 0 ≡ bitwise_crc32 bytes
unfolding crc32 bitwise_crc32 complement32
crc32-bitwise bytes h = ap (λ r. 2 ^ 32 - 1 - r) (crc_loop_lem 0xffffffff bytes h)
