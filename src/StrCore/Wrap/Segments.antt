-- ===== src/StrCore/Wrap/Segments.antt =====
-- Stretches of whole glyphs in a text, their columns, and what `remshy` makes of them.
use lua_conmanorg.StrCore.Glyphs.{EClass, combining, shy, charsmatch}
use lua_conmanorg.StrCore.Glyphs.Bounds.{charsmatch_bounds, charsmatch_other_end}
use lua_conmanorg.StrCore.Wrap.{kept, remshy_loop, remshy}
use lua_conmanorg.Prelude.{
  ℕ, zero, suc, ◌+◌, ◌-◌, ◌≤◌, ◌<◌, some, List, [], ◌++◌, length, ok, ◌≡◌, refl, arith, lt→ltb,
}

-- The columns of a glyph: combining characters and soft hyphens take none.
abbrev pub columns : EClass → ℕ
columns combining = 0
columns shy = 0
columns class = 1

-- From `a` on, whole glyphs of `k` columns reach exactly up to `b`.
pub data Glyphs (s : List ℕ) (b : ℕ) : ℕ → ℕ → Type 0 where
  end : {a k : ℕ} → a ≡ b → k ≡ 0 → Glyphs s b a k
  glyph :
      {a k m n : ℕ} (class : EClass)
      → charsmatch s a (length s) ≡ some (class, n)
      → Glyphs s b n k
      → m ≡ columns class + k
      → Glyphs s b a m

pub Glyphs-le : {s : List ℕ} {b a k : ℕ} → Glyphs s b a k → a ≤ b
Glyphs-le (end e z) = omega arith
Glyphs-le {s} {a} (glyph {n} class c g e) =
    omega (arith, Glyphs-le g, charsmatch_bounds s a (length s) class n c)

-- Some columns take some bytes.
pub Glyphs-lt : {s : List ℕ} {b a k : ℕ} → Glyphs s b a k → 0 < k → a < b
Glyphs-lt (end e z) h = absurd (omega arith)
Glyphs-lt {s} {a} (glyph {n} class c g e) h =
    omega (arith, Glyphs-le g, charsmatch_bounds s a (length s) class n c)

-- One more glyph at the end.
pub Glyphs-snoc :
    {s : List ℕ} {b a k m : ℕ} (class : EClass) (n : ℕ)
    → Glyphs s b a k
    → charsmatch s b (length s) ≡ some (class, n)
    → m ≡ k + columns class
    → Glyphs s n a m
Glyphs-snoc {s} class n (end e z) c h = glyph class (rw e c) (end refl refl) (omega arith)
Glyphs-snoc {k} class n (glyph {k = k'} class' c' g e) c h =
    glyph class' c' (Glyphs-snoc class n g c refl) (omega arith)

-- The glyphs of a stretch that `remshy` keeps.
unfoldable pub visible : {s : List ℕ} {b a k : ℕ} → Glyphs s b a k → List ℕ
visible (end e z) = []
visible {s} {b} {a} (glyph {n} class c g e) = kept s a b class n ++ visible g

remshy_loop_stop : (fuel : ℕ) (s : List ℕ) (i e : ℕ) → e ≤ i → remshy_loop fuel s i e ≡ ok []
unfolding remshy_loop
remshy_loop_stop zero s i e h = ground arith
remshy_loop_stop (suc fuel) s i e h = ground arith

remshy_loop_go :
    (fuel : ℕ) (s : List ℕ) (i e : ℕ) (class : EClass) (n : ℕ) (more : List ℕ)
    → i < e
    → charsmatch s i e ≡ some (class, n)
    → remshy_loop fuel s n e ≡ ok more
    → remshy_loop (suc fuel) s i e ≡ ok (kept s i e class n ++ more)
unfolding remshy_loop
remshy_loop_go fuel s i e class n more h c r = rw (lt→ltb i e h, remshy_loop) (rw (c, r) refl)

remshy_loop-visible :
    {s : List ℕ} {b a k : ℕ} (fuel : ℕ) (g : Glyphs s b a k)
    → b ≤ a + fuel
    → remshy_loop fuel s a b ≡ ok (visible g)
unfolding visible
remshy_loop-visible {s} {b} {a} fuel (end e z) h = remshy_loop_stop fuel s a b (omega arith)
remshy_loop-visible {s} {b} {a} zero (glyph {n} class c g e) h =
    absurd (omega (arith, Glyphs-le g, charsmatch_bounds s a (length s) class n c))
remshy_loop-visible {s} {b} {a} (suc fuel) (glyph {n} class c g e) h =
    let (lt, _, _) = charsmatch_bounds s a (length s) class n c in
    remshy_loop_go fuel s a b class n (visible g) (omega (arith, Glyphs-le g))
      (charsmatch_other_end s a (length s) b class n c (Glyphs-le g))
      (remshy_loop-visible fuel g (omega arith))

-- `remshy` returns on whole glyphs, and keeps those that are visible.
pub remshy-visible : {s : List ℕ} {b a k : ℕ} (g : Glyphs s b a k) → remshy s a b ≡ ok (visible g)
unfolding remshy
remshy-visible {b} {a} g = remshy_loop-visible (b - a) g (omega arith)
