-- ===== src/StrCore/Wrap/Total.antt =====
-- The rounds of `strcore_wrapt` of src/strcore.c, and the lines they lay out.
use lua_conmanorg.StrCore.Glyphs.{EClass, charsmatch}
use lua_conmanorg.StrCore.Glyphs.Bounds.{charsmatch_bounds}
use lua_conmanorg.StrCore.Wrap.{remshy, Layout, place, line_break, next_line, wrapt_loop}
use lua_conmanorg.StrCore.Wrap.Layouts.{
  Breakable, Inv, Placed, place-Placed, same_line-Inv, break-Breakable, next_line-Inv,
}
use lua_conmanorg.StrCore.Wrap.Lines.{Lines, last, line, Wrapped, visible-shown}
use lua_conmanorg.StrCore.Wrap.Segments.{remshy-visible, visible}
use lua_conmanorg.Prelude.{
  ℕ, zero, suc, ◌+◌, ◌-◌, ◌*◌, ◌^◌, ◌≤◌, ◌<◌, inl, inr, true, false, none, some, List, [], ◌∷◌, ltb,
  length, Outcome, ok, stop, lua_error, assertion, undefined, out_of_fuel, ◌>>=◌, ◌≡◌, refl, subst,
  ◌∙◌, arith, lt→ltb, ltb→lt, Bool-cases, Option-cases,
}

-- A glyph that is past goes on with less behind it, and a broken line with less before it.
abbrev left_over : List ℕ → Layout → ℕ
left_over s l = (length s - l.front) * (length s + 2) + (length s - l.i)

broken_leaves_less :
    (n f f' i : ℕ) → f < f' → f' ≤ n → (n - f') * (n + 2) + (n - f') < (n - f) * (n + 2) + (n - i)
broken_leaves_less n f f' i h k = grind arith

module _ (s : List ℕ) (margin : ℕ) where
  pub round_end :
      (fuel : ℕ) (l : Layout) (text : List ℕ)
      → length s ≤ l.i
      → remshy s l.front l.i ≡ ok text
      → wrapt_loop (suc fuel) s margin l ≡ ok (text ∷ [])
  unfolding wrapt_loop
  round_end fuel l text h r =
      let stops : ltb l.i (length s) ≡ false = ground arith in rw (stops, wrapt_loop) (rw r refl)

  pub round_bad :
      (fuel : ℕ) (l : Layout)
      → l.i < length s
      → charsmatch s l.i (length s) ≡ none
      → wrapt_loop (suc fuel) s margin l ≡ stop (lua_error "bad character" [])
  unfolding wrapt_loop
  round_bad fuel l h c = rw (lt→ltb _ _ h, wrapt_loop) (rw c refl)

  pub round_on :
      (fuel : ℕ) (l : Layout) (class : EClass) (n : ℕ)
      → l.i < length s
      → charsmatch s l.i (length s) ≡ some (class, n)
      → ltb margin (place margin class n l).cnt ≡ false
      → wrapt_loop (suc fuel) s margin l
        ≡ wrapt_loop fuel s margin (record (place margin class n l) { i = n })
  unfolding wrapt_loop
  round_on fuel l class n h c m = rw (lt→ltb _ _ h, wrapt_loop) (rw c (rw m refl))

  pub round_break :
      (fuel : ℕ) (l : Layout) (class : EClass) (n : ℕ) (text : List ℕ)
      → l.i < length s
      → charsmatch s l.i (length s) ≡ some (class, n)
      → ltb margin (place margin class n l).cnt ≡ true
      → remshy s (place margin class n l).front (line_break (place margin class n l)) ≡ ok text
      → wrapt_loop (suc fuel) s margin l ≡ (
          wrapt_loop fuel s margin (next_line (place margin class n l)) >>= λ more.
          ok (text ∷ more))
  unfolding wrapt_loop
  round_break fuel l class n text h c m r = rw (lt→ltb _ _ h, wrapt_loop) (rw c (rw m (rw r refl)))

module _ (s : List ℕ) (margin : ℕ) (pos : 0 < margin) (small : margin < 2 ^ 64 - 1) where
  -- A line that is broken off, in front of a good or a bad rest.
  Wrapped-line :
      (front : ℕ) (text : List ℕ) (b r : ℕ) (rest : Outcome (List (List ℕ)))
      → (k : Breakable s margin front b r) → text ≡ visible k.stretch
      → Wrapped s margin r rest
      → Wrapped s margin front (rest >>= λ more. ok (text ∷ more))
  Wrapped-line front text b r (ok more) k e w =
      line k.stretch k.fits (e ∙ visible-shown k.stretch) k.cut k.onward w
  Wrapped-line front text b r (stop (lua_error message chars)) k e w = w
  Wrapped-line front text b r (stop assertion) k e w = w
  Wrapped-line front text b r (stop undefined) k e w = w
  Wrapped-line front text b r (stop out_of_fuel) k e w = w

  Wrapped-last :
      (l : Layout)
      → Inv s margin l
      → length s ≤ l.i
      → (text : List ℕ) × (remshy s l.front l.i ≡ ok text) × Lines s margin l.front (text ∷ [])
  Wrapped-last l v h =
      let at_end : l.i ≡ length s = omega (arith, v.within) in
      (visible v.seen, remshy-visible v.seen, last v.seen at_end v.fits (visible-shown v.seen))

  -- The rounds behind a glyph, by what the loop does with less fuel.
  abbrev Loops : ℕ → Type 0
  Loops fuel =
      (l : Layout)
      → Inv s margin l
      → left_over s l < fuel
      → Wrapped s margin l.front (wrapt_loop fuel s margin l)

  module _ (fuel : ℕ) (l : Layout) (class : EClass) (n : ℕ) (v : Inv s margin l)
      (c : charsmatch s l.i (length s) ≡ some (class, n)) (f : left_over s l < suc fuel) where
    abbrev l' : Layout
    l' = place margin class n l

    placed : Placed s margin pos small class n l l'
    placed = place-Placed s margin pos small l v class n c

    same_line :
        l'.cnt ≤ margin
        → Loops fuel
        → Wrapped s margin l.front (wrapt_loop fuel s margin (record l' { i = n }))
    same_line h loops =
        let (lt, le4, le) = charsmatch_bounds s l.i (length s) class n c in
        subst (λ t. Wrapped s margin t (wrapt_loop fuel s margin (record l' { i = n }))) placed.1
          (loops (record l' { i = n }) (same_line-Inv s margin pos small l l' v class n placed c h)
            (rw placed.1 (omega arith)))

    broken :
        l.i < length s
        → margin < l'.cnt
        → Loops fuel
        → Wrapped s margin l.front (wrapt_loop (suc fuel) s margin l)
    broken inside h loops =
        let k = break-Breakable s margin pos small l l' v class n placed c h in
        let shown = remshy-visible k.stretch in
        rw
          (round_break s margin fuel l class n (visible k.stretch) inside c (lt→ltb _ _ h)
            (rw placed.1 shown))
          (Wrapped-line l.front (visible k.stretch) (line_break l') (next_line l').front _ k refl (
            loops (next_line l') (next_line-Inv s margin pos small l l' v class n placed c h) (
              omega (
                arith,
                broken_leaves_less (length s) l.front (next_line l').front l.i k.onward k.within,
              ))))

  pub wrapt_loop-Wrapped :
      (fuel : ℕ) (l : Layout)
      → Inv s margin l
      → left_over s l < fuel
      → Wrapped s margin l.front (wrapt_loop fuel s margin l)
  wrapt_loop-Wrapped zero l v f = absurd (omega arith)
  wrapt_loop-Wrapped (suc fuel) l v f = elim (Bool-cases (ltb l.i (length s))) [
    | inr stops ↦
        let at_end : length s ≤ l.i = ground arith in
        let (text, shown, lines) = Wrapped-last l v at_end in
        rw (round_end s margin fuel l text at_end shown) lines
    | inl goes ↦
        let inside = ltb→lt l.i (length s) goes in
        elim (Option-cases (charsmatch s l.i (length s))) [
          | inl bad ↦ rw (round_bad s margin fuel l inside bad) (refl, l.i, inside, bad)
          | inr ((class, n), c) ↦ elim (Bool-cases (ltb margin (place margin class n l).cnt)) [
            | inr fits ↦
                rw (round_on s margin fuel l class n inside c fits)
                  (same_line fuel l class n v c f (ground arith) (wrapt_loop-Wrapped fuel))
            | inl past ↦
                broken fuel l class n v c f inside (ltb→lt _ _ past) (wrapt_loop-Wrapped fuel)
          ]
        ]
  ]
