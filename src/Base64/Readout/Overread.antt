-- ===== src/Base64/Readout/Overread.antt =====
-- The search of `Ib64_readout` of src/base64.c behind the table.
use lua_conmanorg.Base64.Object.{Base64}
use lua_conmanorg.Base64.Readout.{strchr, took, readout_loop, readout}
use lua_conmanorg.Prelude.{ℕ, List, [], ◌∷◌, ◌++◌, length, All, none, some, ◌≡◌, ◌≢◌, arith}

strchr_behind :
    (ts more : List ℕ) (c : ℕ)
    → All (λ t. t ≢ 0) ts
    → c ≢ 0
    → strchr ts c ≡ none
    → strchr (ts ++ (c ∷ more)) c ≡ some (length ts)
unfolding strchr
strchr_behind [] more c h k e = ground arith
strchr_behind (t ∷ ts) more c h k e = ground (arith, strchr_behind ts more c h.1)

-- A character that is not in the table, nor NUL nor the pad, is taken as the value 64, which is no
-- group of six bits, where the memory behind the table begins with that character.
readout_overread :
    (b64 : Base64) (more : List ℕ) (c skip : ℕ) (cs : List ℕ)
    → length b64.transtable ≡ 64
    → All (λ t. t ≢ 0) b64.transtable
    → c ≢ 0
    → c ≢ b64.pad
    → strchr b64.transtable c ≡ none
    → readout (c ∷ more) b64 skip (c ∷ cs) ≡ took 64 skip cs
unfolding readout readout_loop
readout_overread b64 more c skip cs n h k p e =
    ground (arith, strchr_behind b64.transtable more c h k e)
