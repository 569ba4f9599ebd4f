-- ===== src/Base64/Readout/Characters.antt =====
-- `Ib64_readout` on the characters that the encoder writes.
use lua_conmanorg.Base64.Object.{size_max, Base64, transtable_at}
use lua_conmanorg.Base64.Readout.{strchr, took, readout_loop, readout}
use lua_conmanorg.Prelude.{
  ℕ, ◌+◌, ◌<◌, none, some, List, [], ◌∷◌, ◌++◌, ◌≡◌, ◌≢◌, refl, arith, Option-cases, inl, inr,
}

-- A codec whose texts can be read back: each of the 64 characters is first found at its own
-- place, and none is the pad or a line end. The search for a line end must not find one in the
-- memory behind the table either.
pub record IsUsable (beyond : List ℕ) (b64 : Base64) : Type 0 where
  pub found : (i : ℕ) → i < 64 → strchr b64.transtable (transtable_at b64 i) ≡ some i
  pub not_nul : (i : ℕ) → i < 64 → transtable_at b64 i ≢ 0
  pub not_pad : (i : ℕ) → i < 64 → transtable_at b64 i ≢ b64.pad
  pub not_newline : (i : ℕ) → i < 64 → transtable_at b64 i ≢ b'\n'
  pub newline_unfound : strchr (b64.transtable ++ beyond) b'\n' ≡ none
  pub pad_not_newline : b64.pad ≢ b'\n'

-- A match in the table is not changed by the memory behind it.
pub strchr-append :
    (ts more : List ℕ) (c i : ℕ) → strchr ts c ≡ some i → strchr (ts ++ more) c ≡ some i
unfolding strchr
strchr-append [] more c i h = cc
strchr-append (t ∷ ts) more c i h = elim (Option-cases (strchr ts c)) [
  | inl none_left ↦ ground arith
  | inr (j, e) ↦ ground (arith, strchr-append ts more c j e)
]

module _ (beyond : List ℕ) (b64 : Base64) (u : IsUsable beyond b64) where
  -- At a character of the table, whatever `*pdata` is.
  pub readout_loop-table :
      (skip : ℕ) (pdata : List ℕ) (i : ℕ) (cs : List ℕ)
      → i < 64
      → readout_loop beyond b64 skip pdata (transtable_at b64 i ∷ cs) ≡ took i skip cs
  unfolding readout_loop
  readout_loop-table skip pdata i cs h =
      let found = strchr-append b64.transtable beyond (transtable_at b64 i) i (u.found i h) in
      ground (arith, found, u.not_nul i h, u.not_pad i h)

  pub readout-table :
      (skip i : ℕ) (cs : List ℕ)
      → i < 64
      → readout beyond b64 skip (transtable_at b64 i ∷ cs) ≡ took i skip cs
  unfolding readout
  readout-table skip i cs h = readout_loop-table skip (transtable_at b64 i ∷ cs) i cs h

  -- A line end before it is skipped.
  pub readout_newline :
      (skip i : ℕ) (cs : List ℕ)
      → i < 64
      → b64.len < size_max
      → readout beyond b64 skip (b'\n' ∷ transtable_at b64 i ∷ cs) ≡ took i skip cs
  unfolding readout readout_loop
  readout_newline skip i cs h short =
      let found = strchr-append b64.transtable beyond (transtable_at b64 i) i (u.found i h) in
      ground (arith, found, u.newline_unfound, u.not_nul i h, u.not_pad i h, u.pad_not_newline)

  -- A line end that nothing follows is not taken: `*pdata` stays where it is.
  pub readout_last_newline :
      (skip : ℕ)
      → b64.len < size_max
      → readout beyond b64 skip (b'\n' ∷ []) ≡ took 0 (skip + 1) (b'\n' ∷ [])
  unfolding readout readout_loop
  readout_last_newline skip short = ground (arith, u.newline_unfound, u.pad_not_newline)

  pub readout_pad :
      (skip : ℕ) (cs : List ℕ)
      → b64.pad ≢ 0
      → readout beyond b64 skip (b64.pad ∷ cs) ≡ took 0 (skip + 1) cs
  unfolding readout readout_loop
  readout_pad skip cs h = ground arith

  pub readout_end : (skip : ℕ) → readout beyond b64 skip [] ≡ took 0 (skip + 1) []
  unfolding readout readout_loop
  readout_end skip = refl
