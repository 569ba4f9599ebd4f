-- ===== src/StrCore/ByteMasks.antt =====
-- The masks on a byte that the UTF-8 code of src/strcore.c uses, as arithmetic.
use lua_conmanorg.Prelude.{ℕ, ◌*◌, ◌/◌, ◌<◌, bit_and, ◌≡◌, refl}
use lua_conmanorg.Prelude.Bits.{agrees_below, agrees_below→eq}

pub mask_c0 : (c : ℕ) → c < 256 → bit_and c 0xc0 ≡ c / 64 * 64
unfolding agrees_below
mask_c0 c h = agrees_below→eq (λ c. bit_and c 0xc0) (λ c. c / 64 * 64) 256 c refl h

pub mask_e0 : (c : ℕ) → c < 256 → bit_and c 0xe0 ≡ c / 32 * 32
unfolding agrees_below
mask_e0 c h = agrees_below→eq (λ c. bit_and c 0xe0) (λ c. c / 32 * 32) 256 c refl h

pub mask_f0 : (c : ℕ) → c < 256 → bit_and c 0xf0 ≡ c / 16 * 16
unfolding agrees_below
mask_f0 c h = agrees_below→eq (λ c. bit_and c 0xf0) (λ c. c / 16 * 16) 256 c refl h
