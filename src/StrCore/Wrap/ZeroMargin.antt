-- ===== src/StrCore/Wrap/ZeroMargin.antt =====
-- `strcore_wrapt` with a margin of 0.
use lua_conmanorg.StrCore.Glyphs.{char, charsmatch}
use lua_conmanorg.StrCore.Wrap.{place, wrapt_loop, start}
use lua_conmanorg.StrCore.Wrap.Segments.{Glyphs, end, remshy-visible, visible}
use lua_conmanorg.StrCore.Wrap.Total.{round_break}
use lua_conmanorg.Prelude.{ℕ, zero, suc, ◌<◌, List, length, some, stop, out_of_fuel, ◌≡◌, refl, ◌∙◌}

stays :
    (s : List ℕ) (n fuel : ℕ)
    → 0 < length s
    → charsmatch s 0 (length s) ≡ some (char, n)
    → wrapt_loop fuel s 0 start ≡ stop out_of_fuel
    → wrapt_loop (suc fuel) s 0 start ≡ stop out_of_fuel
unfolding place
stays s n fuel h c ih =
    let g : Glyphs s 0 0 0 = end refl refl in
    round_break s 0 fuel start char n (visible g) h c refl (remshy-visible g) ∙ rw ih refl

-- With a margin of 0 the loop stays at a text that starts with an ordinary character: it adds
-- empty lines, whatever number of rounds it may take.
wrapt_zero_margin :
    (s : List ℕ) (n fuel : ℕ)
    → 0 < length s
    → charsmatch s 0 (length s) ≡ some (char, n)
    → wrapt_loop fuel s 0 start ≡ stop out_of_fuel
unfolding wrapt_loop
wrapt_zero_margin s n zero h c = refl
wrapt_zero_margin s n (suc fuel) h c = stays s n fuel h c (wrapt_zero_margin s n fuel h c)
