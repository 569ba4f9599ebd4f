-- ===== src/Base64/Readout/Groups.antt =====
-- `Ib64_readout4` on the groups that the encoder writes, after a line end or none.
use lua_conmanorg.Base64.Object.{size_max, Base64, transtable_at}
use lua_conmanorg.Base64.Encoder.{padding}
use lua_conmanorg.Base64.Encoder.Rendering.{line_end}
use lua_conmanorg.Base64.Readout.{took, readout, readout4}
use lua_conmanorg.Base64.Readout.Characters.{
  IsUsable, readout-table, readout_newline, readout_last_newline, readout_pad, readout_end,
}
use lua_conmanorg.Prelude.{ℕ, ◌+◌, ◌<◌, Bool, true, false, List, [], ◌∷◌, ◌++◌, ◌≡◌, refl, arith}

module _ (beyond : List ℕ) (b64 : Base64) (u : IsUsable beyond b64) where
  -- The first character of a group.
  readout_first :
      (nl : Bool) (skip i : ℕ) (cs : List ℕ)
      → (nl ≡ true → b64.len < size_max)
      → i < 64
      → readout beyond b64 skip (line_end nl ++ (transtable_at b64 i ∷ cs)) ≡ took i skip cs
  readout_first true skip i cs short h = readout_newline beyond b64 u skip i cs h (short refl)
  readout_first false skip i cs short h = readout-table beyond b64 u skip i cs h

  readout-padding : (skip : ℕ) → readout beyond b64 skip (padding b64) ≡ took 0 (skip + 1) []
  readout-padding skip =
      ground (arith, readout_pad beyond b64 u skip [], readout_end beyond b64 u skip)

  readout_paddings :
      (skip : ℕ)
      → readout beyond b64 skip (padding b64 ++ padding b64) ≡ took 0 (skip + 1) (padding b64)
  readout_paddings skip =
      ground (arith, readout_pad beyond b64 u skip (b64.pad ∷ []), readout_end beyond b64 u skip)

  module _ (nl : Bool) (short : nl ≡ true → b64.len < size_max) where
    pub readout4_full :
        (i j k l : ℕ) (cs : List ℕ)
        → i < 64
        → j < 64
        → k < 64
        → l < 64
        → readout4 beyond b64 0 (
            line_end nl
            ++ (transtable_at b64 i
                ∷ transtable_at b64 j
                ∷ transtable_at b64 k
                ∷ transtable_at b64 l
                ∷ cs))
          ≡ took (record { b0 = i; b1 = j; b2 = k; b3 = l }) 0 cs
    unfolding readout4
    readout4_full i j k l cs hi hj hk hl = ground (
      arith,
      readout_first nl 0 i (transtable_at b64 j ∷ transtable_at b64 k ∷ transtable_at b64 l ∷ cs)
          short hi,
      readout-table beyond b64 u 0 j (transtable_at b64 k ∷ transtable_at b64 l ∷ cs) hj,
      readout-table beyond b64 u 0 k (transtable_at b64 l ∷ cs) hk,
      readout-table beyond b64 u 0 l cs hl,
    )

    -- At the end of the text, with the padding or without.
    pub readout4_three :
        (i j k : ℕ)
        → i < 64
        → j < 64
        → k < 64
        → readout4 beyond b64 0 (
            line_end nl
            ++ (transtable_at b64 i ∷ transtable_at b64 j ∷ transtable_at b64 k ∷ padding b64))
          ≡ took (record { b0 = i; b1 = j; b2 = k; b3 = 0 }) 1 []
    unfolding readout4
    readout4_three i j k hi hj hk = ground (
      arith,
      readout_first nl 0 i (transtable_at b64 j ∷ transtable_at b64 k ∷ padding b64) short hi,
      readout-table beyond b64 u 0 j (transtable_at b64 k ∷ padding b64) hj,
      readout-table beyond b64 u 0 k (padding b64) hk,
      readout-padding 0,
    )

    pub readout4_two :
        (i j : ℕ)
        → i < 64
        → j < 64
        → readout4 beyond b64 0 (
            line_end nl ++ (transtable_at b64 i ∷ transtable_at b64 j ∷ padding b64 ++ padding b64))
          ≡ took (record { b0 = i; b1 = j; b2 = 0; b3 = 0 }) 2 []
    unfolding readout4
    readout4_two i j hi hj = ground (
      arith,
      readout_first nl 0 i (transtable_at b64 j ∷ padding b64 ++ padding b64) short hi,
      readout-table beyond b64 u 0 j (padding b64 ++ padding b64) hj,
      readout_paddings 0,
      readout-padding 1,
    )

  -- A single character at the end of the text counts three paddings.
  pub readout4_one :
      (i : ℕ)
      → i < 64
      → readout4 beyond b64 0 (transtable_at b64 i ∷ [])
        ≡ took (record { b0 = i; b1 = 0; b2 = 0; b3 = 0 }) 3 []
  unfolding readout4
  readout4_one i hi = ground (
    arith,
    readout-table beyond b64 u 0 i [] hi,
    readout_end beyond b64 u 0,
    readout_end beyond b64 u 1,
    readout_end beyond b64 u 2,
  )

  -- After the last line end nothing is taken, and all four values count as padding.
  pub readout4_last_newline :
      b64.len < size_max
      → readout4 beyond b64 0 (b'\n' ∷ [])
        ≡ took (record { b0 = 0; b1 = 0; b2 = 0; b3 = 0 }) 4 (b'\n' ∷ [])
  unfolding readout4
  readout4_last_newline short = ground (
    arith,
    readout_last_newline beyond b64 u 0 short,
    readout_last_newline beyond b64 u 1 short,
    readout_last_newline beyond b64 u 2 short,
    readout_last_newline beyond b64 u 3 short,
  )
