-- ===== src/StrCore/Glyphs/Bounds.antt =====
-- Where the glyphs of `charsmatch` of src/strcore.c end.
use lua_conmanorg.StrCore.Glyphs.{EClass, char_at, sclass, class_in, charsmatch}
use lua_conmanorg.Prelude.{ℕ, ◌+◌, ◌≤◌, ◌<◌, List, Option, none, some, ◌≡◌, refl, arith}

char_at_bounds :
    (s : List ℕ) (i len c n : ℕ) → char_at s i len ≡ some (c, n) → (i < n) × (n ≤ i + 4) × (n ≤ len)
unfolding char_at
char_at_bounds s i len c n h = ground arith

char_at_other_end :
    (s : List ℕ) (i len end c n : ℕ)
    → char_at s i len ≡ some (c, n)
    → n ≤ end
    → char_at s i end ≡ some (c, n)
unfolding char_at
char_at_other_end s i len end c n h k = ground arith

pub charsmatch_char :
    (s : List ℕ) (i len : ℕ) (class : EClass) (n : ℕ)
    → charsmatch s i len ≡ some (class, n)
    → (c : ℕ) × (char_at s i len ≡ some (c, n)) × (class_in sclass c ≡ class)
unfolding charsmatch
charsmatch_char s i len class n h = go (char_at s i len) refl h
  where
    go :
        (r : Option (ℕ × ℕ))
        → char_at s i len ≡ r
        → ◌≡◌ {A = Option (EClass × ℕ)}
            (elim r [ none ↦ none | some (c, n) ↦ some (class_in sclass c, n) ])
            (some (class, n))
        → (c : ℕ) × (char_at s i len ≡ some (c, n)) × (class_in sclass c ≡ class)
    go none e h = cc
    go (some (c, m)) e h = (c, ground arith, ground arith)

-- A glyph that `charsmatch` finds takes one to four bytes, and ends no later than the text does.
pub charsmatch_bounds :
    (s : List ℕ) (i len : ℕ) (class : EClass) (n : ℕ)
    → charsmatch s i len ≡ some (class, n)
    → (i < n) × (n ≤ i + 4) × (n ≤ len)
charsmatch_bounds s i len class n h =
    let (c, e, _) = charsmatch_char s i len class n h in char_at_bounds s i len c n e

-- The glyph is the same in every text that is long enough to hold it.
pub charsmatch_other_end :
    (s : List ℕ) (i len end : ℕ) (class : EClass) (n : ℕ)
    → charsmatch s i len ≡ some (class, n)
    → n ≤ end
    → charsmatch s i end ≡ some (class, n)
unfolding charsmatch
charsmatch_other_end s i len end class n h k =
    let (c, e, d) = charsmatch_char s i len class n h in
    rw (char_at_other_end s i len end c n e k, charsmatch, d) refl
