-- ===== src/StrCore/Wrap/Layouts.antt =====
-- The invariant of the loop of `strcore_wrapt` of src/strcore.c.
use lua_conmanorg.StrCore.Glyphs.{EClass, space, combining, shy, hyphen, reset, char, charsmatch}
use lua_conmanorg.StrCore.Glyphs.Bounds.{charsmatch_bounds}
use lua_conmanorg.StrCore.Wrap.{Layout, place, line_break, next_line}
use lua_conmanorg.StrCore.Wrap.Segments.{columns, Glyphs, end, Glyphs-le, Glyphs-lt, Glyphs-snoc}
use lua_conmanorg.StrCore.Wrap.Lines.{
  Cut, dropped, behind, forced, Plain, none_yet, one_more, Unbreaking,
}
use lua_conmanorg.Prelude.{
  ℕ, ◌+◌, ◌-◌, ◌^◌, ◌≤◌, ◌<◌, ◌⊎◌, inl, inr, true, false, some, List, ltb, ltb→lt, ap, ◌∙◌, ◌==◌,
  length, ◌≡◌, refl, arith, Bool-cases,
}

-- A place where the line may be broken, and where the next line then starts.
pub record Breakable (s : List ℕ) (margin front b r : ℕ) : Type 0 where
  pub cols : ℕ
  pub stretch : Glyphs s b front cols
  pub fits : cols ≤ margin
  pub cut : Cut s margin front cols b r
  pub onward : front < r
  pub within : r ≤ length s

-- `cnt` counts the columns from `front` to `i`, a break that is noted can be made, and where none is
-- noted there was no place for one.
pub record Inv (s : List ℕ) (margin : ℕ) (l : Layout) : Type 0 where
  pub seen : Glyphs s l.i l.front l.cnt
  pub fits : l.cnt ≤ margin
  pub within : l.i ≤ length s
  pub breakable : l.dobreak ≡ true → Breakable s margin l.front l.breakhere l.resume
  pub plain : l.dobreak ≡ false → Plain s margin l.front l.i l.cnt

module _ (s : List ℕ) (margin : ℕ) (pos : 0 < margin) (small : margin < 2 ^ 64 - 1) where
  -- After a glyph either `cnt` still fits and counts the glyph, or a break can be made.
  abbrev pub Placed : EClass → ℕ → Layout → Layout → Type 0
  Placed class n l l' =
      (l'.i ≡ l.i)
      × (l'.front ≡ l.front)
      × (l'.cnt ≤ margin → l'.cnt ≡ l.cnt + columns class)
      × (l'.dobreak ≡ true → Breakable s margin l.front l'.breakhere l'.resume)
      × (l'.dobreak ≡ false → margin < l'.cnt → (l.cnt ≡ margin) × (class ≡ char))
      × (l'.dobreak ≡ false → (l.dobreak ≡ false) × Unbreaking margin class l.cnt)

  module _ (l : Layout) (v : Inv s margin l) (class : EClass) (n : ℕ)
      (c : charsmatch s l.i (length s) ≡ some (class, n)) where
    break_before :
        (class ≡ space) ⊎ (class ≡ hyphen) ⊎ (class ≡ reset) → Breakable s margin l.front l.i n
    break_before h = record {
      cols = l.cnt;
      stretch = v.seen;
      fits = v.fits;
      cut = dropped class c h;
      onward = omega (arith, Glyphs-le v.seen, charsmatch_bounds s l.i (length s) class n c);
      within = (charsmatch_bounds s l.i (length s) class n c).2;
    }

    break_after :
        (class ≡ hyphen) ⊎ (class ≡ shy)
        → l.cnt + columns class ≤ margin
        → l.cnt < margin
        → Breakable s margin l.front n n
    break_after which h room = record {
      cols = l.cnt + columns class;
      stretch = Glyphs-snoc class n v.seen c refl;
      fits = h;
      cut = behind class l.i l.cnt v.seen c which room refl;
      onward = omega (arith, Glyphs-le v.seen, charsmatch_bounds s l.i (length s) class n c);
      within = (charsmatch_bounds s l.i (length s) class n c).2;
    }

  pub place-Placed :
      (l : Layout) (v : Inv s margin l) (class : EClass) (n : ℕ)
      → charsmatch s l.i (length s) ≡ some (class, n)
      → Placed class n l (place margin class n l)
  unfolding place
  place-Placed l v space n c =
      (refl, refl, λ h. ground arith, λ e. break_before l v space n c (inl refl), λ e. cc, λ e. cc)
  place-Placed l v combining n c = (
    refl,
    refl,
    λ h. omega arith,
    v.breakable,
    λ e h. absurd (omega (arith, v.fits)),
    λ e. (e, tt),
  )
  place-Placed l v shy n c = elim (Bool-cases (ltb l.cnt margin)) [
    | inl room ↦ rw room (
      refl,
      refl,
      λ h. omega arith,
      λ e. break_after l v shy n c (inr refl) (omega (arith, v.fits)) (ltb→lt l.cnt margin room),
      λ e. cc,
      λ e. cc,
    )
    | inr full ↦ rw full (
      refl,
      refl,
      λ h. omega arith,
      v.breakable,
      λ e h. absurd (omega (arith, v.fits)),
      λ e. (e, ground arith),
    )
  ]
  place-Placed l v hyphen n c = elim (Bool-cases (ltb l.cnt margin)) [
    | inl room ↦ rw room (
      refl,
      refl,
      λ h. ground arith,
      λ e. break_after l v hyphen n c (inl refl) (ground arith) (ltb→lt l.cnt margin room),
      λ e. cc,
      λ e. cc,
    )
    | inr full ↦
        let at_margin : (l.cnt == margin) ≡ true = ground (arith, v.fits) in
        rw (full, at_margin)
          (
            refl,
            refl,
            λ h. absurd (omega arith),
            λ e. break_before l v hyphen n c (inr (inl refl)),
            λ e. cc,
            λ e. cc,
          )
  ]
  place-Placed l v reset n c = (
    refl,
    refl,
    λ h. absurd (omega arith),
    λ e. break_before l v reset n c (inr (inr refl)),
    λ e. cc,
    λ e. cc,
  )
  place-Placed l v char n c = (
    refl,
    refl,
    λ h. ground (arith, v.fits),
    v.breakable,
    λ e h. (ground (arith, v.fits), refl),
    λ e. (e, tt),
  )

  module _ (l l' : Layout) (v : Inv s margin l) (class : EClass) (n : ℕ)
      (p : Placed class n l l') where
    -- Within the margin the glyph joins the line.
    pub same_line-Inv :
        charsmatch s l.i (length s) ≡ some (class, n)
        → l'.cnt ≤ margin
        → Inv s margin (record l' { i = n })
    same_line-Inv c h = record {
      seen = rw (p.1, p.2 h) (Glyphs-snoc class n v.seen c refl);
      fits = h;
      within = (charsmatch_bounds s l.i (length s) class n c).2;
      breakable = λ e. rw p.1 (p.3 e);
      plain = λ e. rw (p.1, p.2 h) (one_more class (v.plain (p.5 e).0) c (p.5 e).1);
    }

    -- Past it the line is broken where it can be, and else before the glyph.
    pub break-Breakable :
        charsmatch s l.i (length s) ≡ some (class, n)
        → margin < l'.cnt
        → Breakable s margin l.front (line_break l') (next_line l').front
    break-Breakable c h = elim (Bool-cases l'.dobreak) [
      | inl e ↦ rw e (p.3 e)
      | inr e ↦
          let (full, ordinary) = p.4 e h in
          rw (e, p.0)
            (record {
              cols = l.cnt;
              stretch = v.seen;
              fits = v.fits;
              cut =
                  forced n full (v.plain (p.5 e).0) (c ∙ ap (λ (x : EClass). some (x, n)) ordinary)
                    refl;
              onward = Glyphs-lt v.seen (omega arith);
              within = v.within;
            })
    ]

    pub next_line-Inv :
        charsmatch s l.i (length s) ≡ some (class, n)
        → margin < l'.cnt
        → Inv s margin (next_line l')
    next_line-Inv c h = record {
      seen = end refl refl;
      fits = omega arith;
      within = (break-Breakable c h).within;
      breakable = λ e. cc;
      plain = λ e. none_yet;
    }
