-- ===== src/Fsys/Modes/RoundTrip.antt =====
-- A mode of src/fsys.c is read back from its text.
use lua_conmanorg.Fsys.Modes.{fsys_l_pushperm, fsys_l_checkmode, three, special, nine}
use lua_conmanorg.Prelude.Bits.{bit_and_low_field, agrees_below, agrees_below→eq}
use lua_conmanorg.Prelude.{
  ℕ, ◌+◌, ◌*◌, ◌/◌, ◌%◌, ◌^◌, ◌<◌, ◌≡◌, refl, ap, ◌∙◌, some, bit_and, arith, true,
}

texts_agree : agrees_below (λ m. fsys_l_checkmode (some (fsys_l_pushperm m)) 0) (λ m. m) 4096 ≡ true
unfolding agrees_below fsys_l_checkmode fsys_l_pushperm three special nine
texts_agree = refl

-- Bits above the twelfth are not written.
same_bit : (k m : ℕ) → k < 12 → bit_and m (2 ^ k) ≡ bit_and (m % 4096) (2 ^ k)
same_bit k m h =
    let parts : m ≡ m / 4096 * 2 ^ 12 + m % 4096 = omega arith in
    ap (λ t. bit_and t (2 ^ k)) parts ∙ bit_and_low_field 12 (m / 4096) (m % 4096) k h (omega arith)

pushperm-low : (m : ℕ) → fsys_l_pushperm m ≡ fsys_l_pushperm (m % 4096)
unfolding fsys_l_pushperm
pushperm-low m =
    rw
      (
        same_bit 0 m (omega arith),
        same_bit 1 m (omega arith),
        same_bit 2 m (omega arith),
        same_bit 3 m (omega arith),
        same_bit 4 m (omega arith),
        same_bit 5 m (omega arith),
        same_bit 6 m (omega arith),
        same_bit 7 m (omega arith),
        same_bit 8 m (omega arith),
        same_bit 9 m (omega arith),
        same_bit 10 m (omega arith),
        same_bit 11 m (omega arith),
      )
      refl

-- The text that is made of a mode gives the twelve lowest bits of the mode.
pub checkmode-pushperm :
    (mode def : ℕ) → fsys_l_checkmode (some (fsys_l_pushperm mode)) def ≡ mode % 4096
unfolding fsys_l_checkmode
checkmode-pushperm mode def =
    ap (λ t. fsys_l_checkmode (some t) def) (pushperm-low mode)
    ∙ agrees_below→eq (λ m. fsys_l_checkmode (some (fsys_l_pushperm m)) 0) (λ m. m) 4096
        (mode % 4096) texts_agree (omega arith)
