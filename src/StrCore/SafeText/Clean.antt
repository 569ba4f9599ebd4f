-- ===== src/StrCore/SafeText/Clean.antt =====
-- Text in which the functions of src/strcore.c escape nothing.
use lua_conmanorg.StrCore.ByteMasks.{mask_c0, mask_e0, mask_f0}
use lua_conmanorg.StrCore.SafeText.{
  is_continuation, utf8_two, utf8_three, utf8_four, safeutf8_loop, safeutf8, safeascii,
}
use lua_conmanorg.StrCore.SafeText.Printable.{
  IsPrintable, IsContinuation, Utf8Text, nil, ascii, two, three, four,
}
use lua_conmanorg.StrCore.SafeText.Rounds.{round, safeutf8_round-ok}
use lua_conmanorg.Prelude.{
  ℕ, zero, suc, ◌≤◌, ◌<◌, List, [], ◌∷◌, length, All, ok, ◌≡◌, ◌≢◌, refl, arith, true,
}

abbrev pub NotBackslash : ℕ → Type 0
NotBackslash c = c ≢ b'\\'

-- `safeascii` keeps printable text without a backslash as it is.
pub safeascii_clean : (s : List ℕ) → All IsPrintable s → All NotBackslash s → safeascii s ≡ s
unfolding safeascii
safeascii_clean [] h n = refl
safeascii_clean (c ∷ cs) h n = ground (arith, safeascii_clean cs h.1 n.1)

is_continuation_lem : (d : ℕ) → IsContinuation d → is_continuation d ≡ true
is_continuation_lem d h = ground (arith, mask_c0 d)

round_two :
    (c d : ℕ) (cs : List ℕ)
    → 0xc2 ≤ c
    → c < 0xe0
    → IsContinuation d
    → round c (d ∷ cs) ≡ (c ∷ d ∷ [], cs)
unfolding utf8_two
round_two c d cs lo hi h = ground (arith, mask_e0 c, is_continuation_lem d h)

round_three :
    (c d e : ℕ) (cs : List ℕ)
    → 0xe0 ≤ c
    → c < 0xf0
    → IsContinuation d
    → IsContinuation e
    → round c (d ∷ e ∷ cs) ≡ (c ∷ d ∷ e ∷ [], cs)
unfolding utf8_three
round_three c d e cs lo hi h k =
    ground (arith, mask_e0 c, mask_f0 c, is_continuation_lem d h, is_continuation_lem e k)

round_four :
    (c d e f : ℕ) (cs : List ℕ)
    → 0xf0 ≤ c
    → c ≤ 0xf4
    → IsContinuation d
    → IsContinuation e
    → IsContinuation f
    → round c (d ∷ e ∷ f ∷ cs) ≡ (c ∷ d ∷ e ∷ f ∷ [], cs)
unfolding utf8_four
round_four c d e f cs lo hi h k l = ground (
  arith,
  mask_e0 c,
  mask_f0 c,
  is_continuation_lem d h,
  is_continuation_lem e k,
  is_continuation_lem f l,
)

round_ascii : (c : ℕ) (cs : List ℕ) → IsPrintable c → NotBackslash c → round c cs ≡ (c ∷ [], cs)
round_ascii c cs h n = ground arith

safeutf8_loop_clean :
    (fuel : ℕ) {s : List ℕ}
    → Utf8Text s
    → All NotBackslash s
    → length s ≤ fuel
    → safeutf8_loop fuel s ≡ ok s
unfolding safeutf8_loop
safeutf8_loop_clean fuel nil n f = refl
safeutf8_loop_clean zero (ascii p t) n f = absurd (omega arith)
safeutf8_loop_clean zero (two lo hi h t) n f = absurd (omega arith)
safeutf8_loop_clean zero (three lo hi h k t) n f = absurd (omega arith)
safeutf8_loop_clean zero (four lo hi h k l t) n f = absurd (omega arith)
safeutf8_loop_clean (suc fuel) (ascii {c} {cs} p t) n f =
    rw
      (safeutf8_round-ok c cs, round_ascii c cs p n.0, safeutf8_loop_clean fuel t n.1 (omega arith))
      refl
safeutf8_loop_clean (suc fuel) (two {c} {d} {cs} lo hi h t) n f =
    rw
      (
        safeutf8_round-ok c (d ∷ cs),
        round_two c d cs lo hi h,
        safeutf8_loop_clean fuel t n.1.1 (omega arith),
      )
      refl
safeutf8_loop_clean (suc fuel) (three {c} {d} {e} {cs} lo hi h k t) n f =
    rw
      (
        safeutf8_round-ok c (d ∷ e ∷ cs),
        round_three c d e cs lo hi h k,
        safeutf8_loop_clean fuel t n.1.1.1 (omega arith),
      )
      refl
safeutf8_loop_clean (suc fuel) (four {c} {d} {e} {f = g} {cs} lo hi h k l t) n f =
    rw
      (
        safeutf8_round-ok c (d ∷ e ∷ g ∷ cs),
        round_four c d e g cs lo hi h k l,
        safeutf8_loop_clean fuel t n.1.1.1.1 (omega arith),
      )
      refl

-- `safeutf8` keeps text of printable ASCII and multibyte sequences as it is, where it has no
-- backslash.
safeutf8_clean : (s : List ℕ) → Utf8Text s → All NotBackslash s → safeutf8 s ≡ ok s
unfolding safeutf8
safeutf8_clean s t n = safeutf8_loop_clean (length s) t n (omega arith)
