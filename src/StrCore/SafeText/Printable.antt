-- ===== src/StrCore/SafeText/Printable.antt =====
-- The characters of the escaped text of src/strcore.c.
use lua_conmanorg.StrCore.ByteMasks.{mask_c0, mask_e0, mask_f0}
use lua_conmanorg.StrCore.SafeText.{
  escape_letter, c0, plain, safeascii, is_continuation, utf8_two, utf8_three, utf8_four,
  utf8_sequence, safeutf8_loop, safeutf8,
}
use lua_conmanorg.StrCore.SafeText.Rounds.{IsByte, round, round-Leaves, safeutf8_round-ok}
use lua_conmanorg.Prelude.{
  ℕ, zero, suc, ◌≤◌, ◌<◌, List, [], ◌∷◌, ◌++◌, length, All, All-append, ok, ◌≡◌, refl, arith, true,
  Bool-cases, inl, inr,
}

abbrev pub IsPrintable : ℕ → Type 0
IsPrintable c = (32 ≤ c) × (c < 127)

c0-IsPrintable : (c : ℕ) → c < 256 → All IsPrintable (c0 c)
unfolding c0 escape_letter
c0-IsPrintable c h = ground arith

-- `safeascii` writes printable ASCII only, from ' ' to '~', whatever the bytes are.
safeascii-IsPrintable : (s : List ℕ) → All IsByte s → All IsPrintable (safeascii s)
unfolding safeascii
safeascii-IsPrintable [] h = tt
safeascii-IsPrintable (c ∷ cs) (hc, h) =
    All-append IsPrintable _ (safeascii cs) (ground (arith, c0-IsPrintable c hc))
      (safeascii-IsPrintable cs h)

abbrev pub IsContinuation : ℕ → Type 0
IsContinuation d = (128 ≤ d) × (d < 192)

-- Text of printable ASCII and of multibyte sequences of the length that their lead byte states.
pub data Utf8Text : List ℕ → Type 0 where
  nil : Utf8Text []
  ascii : {c : ℕ} {cs : List ℕ} → IsPrintable c → Utf8Text cs → Utf8Text (c ∷ cs)
  two :
      {c d : ℕ} {cs : List ℕ}
      → 0xc2 ≤ c
      → c < 0xe0
      → IsContinuation d
      → Utf8Text cs
      → Utf8Text (c ∷ d ∷ cs)
  three :
      {c d e : ℕ} {cs : List ℕ}
      → 0xe0 ≤ c
      → c < 0xf0
      → IsContinuation d
      → IsContinuation e
      → Utf8Text cs
      → Utf8Text (c ∷ d ∷ e ∷ cs)
  four :
      {c d e f : ℕ} {cs : List ℕ}
      → 0xf0 ≤ c
      → c ≤ 0xf4
      → IsContinuation d
      → IsContinuation e
      → IsContinuation f
      → Utf8Text cs
      → Utf8Text (c ∷ d ∷ e ∷ f ∷ cs)

Utf8Text-ascii : (s cs : List ℕ) → All IsPrintable s → Utf8Text cs → Utf8Text (s ++ cs)
Utf8Text-ascii [] cs h t = t
Utf8Text-ascii (c ∷ s) cs h t = ascii h.0 (Utf8Text-ascii s cs h.1 t)

continuation : (d : ℕ) → d < 256 → is_continuation d ≡ true → IsContinuation d
continuation d h e = ground (arith, mask_c0 d h)

abbrev Extends : List ℕ → List ℕ × List ℕ → Type 0
Extends more (written, left) = Utf8Text (written ++ more)

module _ (more : List ℕ) (t : Utf8Text more) where
  c0-Extends : (c : ℕ) (cs : List ℕ) → c < 256 → Extends more (c0 c, cs)
  c0-Extends c cs h = Utf8Text-ascii (c0 c) more (c0-IsPrintable c h) t

  two-Extends :
      (c : ℕ) (cs : List ℕ) → 0xc2 ≤ c → c < 0xe0 → All IsByte cs → Extends more (utf8_two c cs)
  unfolding utf8_two
  two-Extends c [] lo hi h = c0-Extends c [] (omega arith)
  two-Extends c (d ∷ cs) lo hi h = elim (Bool-cases (is_continuation d)) [
    | inl e ↦ rw e (two lo hi (continuation d h.0 e) t)
    | inr e ↦ rw e (c0-Extends c (d ∷ cs) (omega arith))
  ]

  three-Extends :
      (c : ℕ) (cs : List ℕ) → 0xe0 ≤ c → c < 0xf0 → All IsByte cs → Extends more (utf8_three c cs)
  unfolding utf8_three
  three-Extends c [] lo hi h = c0-Extends c [] (omega arith)
  three-Extends c (d ∷ []) lo hi h = c0-Extends c (d ∷ []) (omega arith)
  three-Extends c (d ∷ e ∷ cs) lo hi h =
      let escaped = c0-Extends c (d ∷ e ∷ cs) (omega arith) in
      elim (Bool-cases (is_continuation d)) [
        | inr p ↦ rw p escaped
        | inl p ↦ elim (Bool-cases (is_continuation e)) [
          | inr q ↦ rw (p, q) escaped
          | inl q ↦ rw (p, q) (three lo hi (continuation d h.0 p) (continuation e h.1.0 q) t)
        ]
      ]

  four-Extends :
      (c : ℕ) (cs : List ℕ) → 0xf0 ≤ c → c ≤ 0xf4 → All IsByte cs → Extends more (utf8_four c cs)
  unfolding utf8_four
  four-Extends c [] lo hi h = c0-Extends c [] (omega arith)
  four-Extends c (d ∷ []) lo hi h = c0-Extends c (d ∷ []) (omega arith)
  four-Extends c (d ∷ e ∷ []) lo hi h = c0-Extends c (d ∷ e ∷ []) (omega arith)
  four-Extends c (d ∷ e ∷ f ∷ cs) lo hi h =
      let escaped = c0-Extends c (d ∷ e ∷ f ∷ cs) (omega arith) in
      elim (Bool-cases (is_continuation d)) [
        | inr p ↦ rw p escaped
        | inl p ↦ elim (Bool-cases (is_continuation e)) [
          | inr q ↦ rw (p, q) escaped
          | inl q ↦ elim (Bool-cases (is_continuation f)) [
            | inr r ↦ rw (p, q, r) escaped
            | inl r ↦
                rw (p, q, r)
                  (four lo hi (continuation d h.0 p) (continuation e h.1.0 q)
                    (continuation f h.1.1.0 r) t)
          ]
        ]
      ]

  plain-Extends : (c : ℕ) (cs : List ℕ) → IsPrintable c → Extends more (plain c, cs)
  plain-Extends c cs h = Utf8Text-ascii (plain c) more (ground arith) t

  sequence-Extends :
      (c : ℕ) (cs : List ℕ)
      → 0xc2 ≤ c
      → c ≤ 0xf4
      → All IsByte cs
      → Extends more (utf8_sequence c cs)
  sequence-Extends c cs lo hi h =
      ground (arith, mask_e0 c, mask_f0 c, two-Extends c cs, three-Extends c cs, four-Extends c cs)

  round-Extends : (c : ℕ) (cs : List ℕ) → c < 256 → All IsByte cs → Extends more (round c cs)
  round-Extends c cs hc h =
      ground (arith, c0-Extends c cs, plain-Extends c cs, sequence-Extends c cs)

safeutf8_loop-Utf8Text :
    (fuel : ℕ) (s : List ℕ)
    → length s ≤ fuel
    → All IsByte s
    → (out : List ℕ) × (safeutf8_loop fuel s ≡ ok out) × Utf8Text out
unfolding safeutf8_loop
safeutf8_loop-Utf8Text fuel [] f h = ([], refl, nil)
safeutf8_loop-Utf8Text zero (c ∷ cs) f h = absurd (omega arith)
safeutf8_loop-Utf8Text (suc fuel) (c ∷ cs) f (hc, h) =
    let (written, left) = round c cs in
    let (shorter, bytes) = round-Leaves c cs in
    let (more, returns, t) = safeutf8_loop-Utf8Text fuel left (omega arith) (bytes h) in
    (written ++ more, rw (safeutf8_round-ok c cs, returns) refl, round-Extends more t c cs hc h)

-- `safeutf8` returns on every string of bytes, and writes only printable ASCII and multibyte
-- sequences of the length that their lead byte states.
pub safeutf8-Utf8Text :
    (s : List ℕ) → All IsByte s → (out : List ℕ) × (safeutf8 s ≡ ok out) × Utf8Text out
unfolding safeutf8
safeutf8-Utf8Text s h = safeutf8_loop-Utf8Text (length s) s (omega arith) h
