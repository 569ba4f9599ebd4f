-- ===== src/Base64/Decoder/Termination.antt =====
-- How the loop of `b64meta_decode` of src/base64.c ends.
use lua_conmanorg.Base64.Object.{Base64}
use lua_conmanorg.Base64.Readout.{
  Scan, took, refused, readout_loop, readout, readout4, ◌>>=◌, Reader,
}
use lua_conmanorg.Base64.Decoder.{group_bytes, decode_loop, decode}
use lua_conmanorg.Prelude.{
  ℕ, zero, suc, ◌+◌, ◌≤◌, ◌<◌, Bool, List, [], ◌∷◌, ◌++◌, length, ◌≡◌, arith, Outcome, ok, stop,
  assertion, Option, false, ◌⊎◌, refl, out_of_fuel, undefined, lua_error, inl, inr,
}

Scan-cases {ℓ} :
    {A : Type ℓ} (r : Scan A)
    → ((a : A) × (skip : ℕ) × (text : List ℕ) × (r ≡ took a skip text))
      ⊎ ((text : List ℕ) × (r ≡ refused text))
Scan-cases (took a skip text) = inl (a, skip, text, refl)
Scan-cases (refused text) = inr (text, refl)

-- `n` calls from `skip` at `text`: each takes a character or counts a padding, and a codec that
-- ignores foreign characters refuses none.
abbrev Advances {ℓ} : {A : Type ℓ} → Bool → ℕ → ℕ → List ℕ → Scan A → Type 0
Advances ignore n skip text (took a skip' text') = length text' + n + skip ≤ length text + skip'
Advances ignore n skip text (refused text') = ignore ≡ false

module _ (beyond : List ℕ) (b64 : Base64) where
  readout_loop-Advances :
      (cs : List ℕ) (skip : ℕ) (pdata : List ℕ)
      → length cs ≤ length pdata
      → Advances b64.ignore 1 skip pdata (readout_loop beyond b64 skip pdata cs)
  unfolding readout_loop
  readout_loop-Advances [] skip pdata h = omega arith
  readout_loop-Advances (c ∷ cs) skip pdata h =
      ground (arith, readout_loop-Advances cs skip pdata (omega arith))

  readout-Advances :
      (skip : ℕ) (text : List ℕ) → Advances b64.ignore 1 skip text (readout beyond b64 skip text)
  unfolding readout
  readout-Advances skip text = readout_loop-Advances text skip text (omega arith)

  Advances-more :
      {A : Type 0} (n skip skip' : ℕ) (text text' : List ℕ) (r : Scan A)
      → length text' + 1 + skip ≤ length text + skip'
      → Advances b64.ignore n skip' text' r
      → Advances b64.ignore (n + 1) skip text r
  Advances-more n skip skip' text text' (took a skip2 text2) h k = omega arith
  Advances-more n skip skip' text text' (refused text2) h k = k

  Advances-bind :
      {A : Type 0} (f : ℕ → Reader A) (n skip : ℕ) (text : List ℕ)
      → ((a skip' : ℕ) (text' : List ℕ) → Advances b64.ignore n skip' text' (f a skip' text'))
      → Advances b64.ignore (n + 1) skip text ((readout beyond b64 >>= f) skip text)
  Advances-bind f n skip text k = go (readout beyond b64 skip text) (readout-Advances skip text)
    where
      go :
          (m : Scan ℕ)
          → Advances b64.ignore 1 skip text m
          → Advances b64.ignore
              (n + 1)
              skip
              text
              (elim m [ took a skip' text' ↦ f a skip' text' | refused text' ↦ refused text' ])
      go (took a skip' text') h =
          Advances-more n skip skip' text text' (f a skip' text') h (k a skip' text')
      go (refused text') h = h

  readout4-Advances :
      (skip : ℕ) (text : List ℕ) → Advances b64.ignore 4 skip text (readout4 beyond b64 skip text)
  unfolding readout4
  readout4-Advances skip text = Advances-bind _ 3 skip text λ b0 skip1 text1.
      Advances-bind _ 2 skip1 text1 λ b1 skip2 text2.
        Advances-bind _ 1 skip2 text2
          λ b2 skip3 text3. Advances-bind _ 0 skip3 text3 λ b3 skip4 text4. omega arith

  -- A normal return, a failed assertion, or an error that only a codec which ignores no
  -- character raises.
  abbrev pub Ends : Outcome (Option (List ℕ)) → Type 0
  Ends (ok out) = Unit
  Ends (stop assertion) = Unit
  Ends (stop (lua_error message chars)) = b64.ignore ≡ false
  Ends (stop out_of_fuel) = ⊥
  Ends (stop undefined) = ⊥

  decode_loop-Ends :
      (fuel : ℕ) (b : List ℕ) (skip : ℕ) (text : List ℕ)
      → length text < fuel
      → Ends (decode_loop beyond b64 fuel b skip text)
  unfolding decode_loop
  decode_loop-Ends zero b skip text h = absurd (omega arith)
  decode_loop-Ends (suc fuel) b skip text h = elim (Scan-cases (readout4 beyond b64 skip text)) [
    | inl (q, skip', text', e) ↦
        let shorter = rw e at (readout4-Advances skip text) in
        rw e (ground (arith, decode_loop-Ends fuel (b ++ group_bytes skip' q) skip' text'))
    | inr (text', e) ↦ let strictly = rw e at (readout4-Advances skip text) in rw e (ground arith)
  ]

-- `decode` ends on every text: it returns, or an assertion fails, or it raises an error, and the
-- error only with a codec that does not ignore foreign characters.
pub decode-Ends :
    (beyond : List ℕ) (b64 : Base64) (text : List ℕ) → Ends beyond b64 (decode beyond b64 text)
unfolding decode
decode-Ends beyond b64 text = decode_loop-Ends beyond b64 _ [] 0 text (omega arith)
