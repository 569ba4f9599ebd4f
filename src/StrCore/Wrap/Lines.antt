-- ===== src/StrCore/Wrap/Lines.antt =====
-- What a list of lines is as a layout of a text.
use lua_conmanorg.StrCore.Glyphs.{EClass, space, combining, shy, hyphen, reset, char, charsmatch}
use lua_conmanorg.StrCore.Wrap.Segments.{columns, Glyphs, end, glyph, visible, Glyphs-le}
use lua_conmanorg.StrCore.Wrap.{kept}
use lua_conmanorg.Prelude.{
  ℕ, ◌+◌, ◌-◌, ◌≤◌, ◌<◌, ◌⊎◌, ◌==◌, if◌then◌else◌, List, [], ◌∷◌, ◌++◌, take, drop, length, some,
  none, Outcome, ok, stop, lua_error, ◌≡◌, refl, ap₂, arith,
}

-- The text of a glyph from `a` to `n` on a line that ends at `b`: a soft hyphen is there only as the
-- last glyph of the line.
unfoldable pub shown_glyph : List ℕ → ℕ → ℕ → EClass → ℕ → List ℕ
shown_glyph s a b shy n = if n == b then take (n - a) (drop a s) else []
shown_glyph s a b class n = take (n - a) (drop a s)

unfoldable pub shown : {s : List ℕ} {b a k : ℕ} → Glyphs s b a k → List ℕ
shown (end e z) = []
shown {s} {b} {a} (glyph {n} class c g e) = shown_glyph s a b class n ++ shown g

kept-shown :
    (s : List ℕ) (a b : ℕ) (class : EClass) (n : ℕ)
    → n ≤ b
    → kept s a b class n ≡ shown_glyph s a b class n
unfolding shown_glyph
kept-shown s a b space n h = refl
kept-shown s a b combining n h = refl
kept-shown s a b shy n h = ground arith
kept-shown s a b hyphen n h = refl
kept-shown s a b reset n h = refl
kept-shown s a b char n h = refl

pub visible-shown : {s : List ℕ} {b a k : ℕ} (g : Glyphs s b a k) → visible g ≡ shown g
unfolding visible shown
visible-shown (end e z) = refl
visible-shown {s} {b} {a} (glyph {n} class c g e) =
    ap₂ ◌++◌ (kept-shown s a b class n (Glyphs-le g)) (visible-shown g)

-- A glyph behind `k` columns at which the line cannot be broken: a soft hyphen is none where its column
-- would be past the margin.
abbrev pub Unbreaking : ℕ → EClass → ℕ → Type 0
Unbreaking margin space k = ⊥
Unbreaking margin combining k = Unit {0}
Unbreaking margin shy k = margin ≤ k
Unbreaking margin hyphen k = ⊥
Unbreaking margin reset k = ⊥
Unbreaking margin char k = Unit {0}

-- From `front` to `b` there are `k` columns of glyphs at which the line cannot be broken.
pub data Plain (s : List ℕ) (margin front : ℕ) : ℕ → ℕ → Type 0 where
  none_yet : Plain s margin front front 0
  one_more :
      {b n k : ℕ} (class : EClass)
      → Plain s margin front b k
      → charsmatch s b (length s) ≡ some (class, n)
      → Unbreaking margin class k
      → Plain s margin front n (k + columns class)

-- Where a line of `k` columns from `front` ends, at `b`, and the next one starts, at `r`: a space, a
-- line separator or a hyphen is left out between them; or the line ends with a hyphen or a soft
-- hyphen that is a column within the margin; or the columns are full, the line cannot be broken at any of its
-- glyphs, and an ordinary character follows.
pub data Cut (s : List ℕ) (margin front k b r : ℕ) : Type 0 where
  dropped :
      (class : EClass)
      → charsmatch s b (length s) ≡ some (class, r)
      → (class ≡ space) ⊎ (class ≡ hyphen) ⊎ (class ≡ reset)
      → Cut s margin front k b r
  behind :
      (class : EClass) (p j : ℕ)
      → Glyphs s p front j
      → charsmatch s p (length s) ≡ some (class, b)
      → (class ≡ hyphen) ⊎ (class ≡ shy)
      → j < margin
      → r ≡ b
      → Cut s margin front k b r
  forced :
      (n : ℕ)
      → k ≡ margin
      → Plain s margin front b k
      → charsmatch s b (length s) ≡ some (char, n)
      → r ≡ b
      → Cut s margin front k b r

-- From `front` on, `lines` are stretches of whole glyphs of at most `margin` columns, soft hyphens not
-- counted, that follow each other up to the end of the text as the cuts say.
pub data Lines (s : List ℕ) (margin : ℕ) : ℕ → List (List ℕ) → Type 0 where
  last :
      {front b k : ℕ} {line : List ℕ} (g : Glyphs s b front k)
      → b ≡ length s
      → k ≤ margin
      → line ≡ shown g
      → Lines s margin front (line ∷ [])
  line :
      {front b r k : ℕ} {text : List ℕ} {more : List (List ℕ)} (g : Glyphs s b front k)
      → k ≤ margin
      → text ≡ shown g
      → Cut s margin front k b r
      → front < r
      → Lines s margin r more
      → Lines s margin front (text ∷ more)

-- How the layout of a text from `front` on may end.
abbrev pub Wrapped : List ℕ → ℕ → ℕ → Outcome (List (List ℕ)) → Type 0
Wrapped s margin front (ok lines) = Lines s margin front lines
Wrapped s margin front (stop (lua_error message chars)) =
    (message ≡ "bad character") × (p : ℕ) × (p < length s) × (charsmatch s p (length s) ≡ none)
Wrapped s margin front (stop _) = ⊥
