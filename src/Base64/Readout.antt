-- ===== src/Base64/Readout.antt =====
-- `Ib64_readout` and `Ib64_readout4` of src/base64.c: one character, and four, of the text.
pub mod Characters
pub mod Overread
pub mod Groups
use mathlib.Core.Option
use lua_conmanorg.Base64.Object.{u8, size_max, Base64}
use lua_conmanorg.Prelude.{
  ℕ, suc, ◌+◌, not, ◌&&◌, ◌||◌, Option, none, some, List, [], ◌∷◌, ◌++◌, ltb, ◌==◌, if◌then◌else◌,
}

-- `strchr(s,c) - s` on memory, for a `c` that is not NUL.
unfoldable pub strchr : List ℕ → ℕ → Option ℕ
strchr [] c = none
strchr (t ∷ ts) c = if t == 0 then none else if t == c then some 0 else Option.map suc (strchr ts c)

-- What `Ib64_readout` does to `*pr`, `*skip` and `*pdata`; a call that returns false leaves `*pdata`.
pub data Scan {ℓ} (A : Type ℓ) : Type ℓ where
  took : A → ℕ → List ℕ → Scan A
  refused : List ℕ → Scan A

abbrev pub Reader {ℓ} : Type ℓ → Type ℓ
Reader A = ℕ → List ℕ → Scan A

infixl 5 ◌>>=◌
abbrev pub ◌>>=◌ {ℓ κ} : {A : Type ℓ} {B : Type κ} → Reader A → (A → Reader B) → Reader B
◌>>=◌ m f skip pdata = elim (m skip pdata) [
  | took a skip' pdata' ↦ f a skip' pdata'
  | refused pdata' ↦ refused pdata'
]

-- `uint8_t buf[4]`
pub record Quad : Type 0 where
  pub b0 : ℕ
  pub b1 : ℕ
  pub b2 : ℕ
  pub b3 : ℕ

-- `beyond` is the memory behind `transtable`, which holds no NUL to stop `strchr`.
module _ (beyond : List ℕ) (b64 : Base64) where
  -- The loop of `Ib64_readout`: `pdata` is `*pdata`, the last argument the local `data`.
  unfoldable pub readout_loop : ℕ → List ℕ → List ℕ → Scan ℕ
  readout_loop skip pdata [] = took 0 (skip + 1) pdata
  readout_loop skip pdata (c ∷ cs) =
      let again = readout_loop skip pdata cs in
      if c == 0
      then took 0 (skip + 1) pdata
      else if c == b64.pad
      then took 0 (skip + 1) cs
      else elim (strchr (b64.transtable ++ beyond) c) [
        | some p ↦ took (u8 p) skip cs
        | none ↦
            if ltb b64.len size_max && (c == b'\r' || c == b'\n')
            then again
            else if not b64.ignore
            then refused pdata
            else again
      ]

  unfoldable pub readout : Reader ℕ
  readout skip pdata = readout_loop skip pdata pdata

  unfoldable pub readout4 : Reader Quad
  readout4 = do
    b0 ← readout
    b1 ← readout
    b2 ← readout
    b3 ← readout
    took (record { b0 = b0; b1 = b1; b2 = b2; b3 = b3 })
