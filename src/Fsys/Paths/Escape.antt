-- ===== src/Fsys/Paths/Escape.antt =====
-- The names of files that src/fsys.c escapes.
use lua_conmanorg.Fsys.Paths.{last_place, strrchr, fsys__safename}
use lua_conmanorg.Prelude.{
  ℕ, ◌==◌, ◌≡◌, inl, inr, refl, sym, ap, ap₂, ◌∙◌, true, false, if◌then◌else◌, List, [], ◌∷◌, none,
  Bool-cases, arith,
}

-- To read an escaped name.
unfoldable pub unescaped : List ℕ → List ℕ
unescaped [] = []
unescaped (c ∷ []) = c ∷ []
unescaped (c ∷ d ∷ []) = c ∷ d ∷ []
unescaped (c ∷ d ∷ e ∷ s) =
    let one = unescaped (d ∷ e ∷ s) in
    let behind = unescaped s in
    if c == b'%' then (if e == b'F' then b'/' else b'%') ∷ behind else c ∷ one

unescaped-plain : (c : ℕ) (s : List ℕ) → (c == b'%') ≡ false → unescaped (c ∷ s) ≡ c ∷ unescaped s
unfolding unescaped
unescaped-plain c [] h = refl
unescaped-plain c (d ∷ []) h = refl
unescaped-plain c (d ∷ e ∷ s) h = rw h refl

==→eq : (a b : ℕ) → (a == b) ≡ true → a ≡ b
==→eq a b h = ground arith

named_again : {a b : ℕ} {s t : List ℕ} → a ≡ b → s ≡ t → a ∷ s ≡ b ∷ t
named_again e f = ap₂ (λ (c : ℕ) (r : List ℕ). c ∷ r) e f

-- The name that `_safename` makes has no slash, and the old name can be read back from it.
unescaped-safename :
    (old : List ℕ)
    → (unescaped (fsys__safename old) ≡ old) × (strrchr (fsys__safename old) b'/' ≡ none)
unfolding fsys__safename strrchr last_place unescaped
unescaped-safename [] = (refl, refl)
unescaped-safename (c ∷ old) = elim (Bool-cases (c == b'/')) [
  | inl slash ↦ rw slash (
    named_again (sym (==→eq c b'/' slash)) (unescaped-safename old).0,
    rw (unescaped-safename old).1 refl,
  )
  | inr other ↦ rw other (elim (Bool-cases (c == b'%')) [
    | inl percent ↦ rw percent (
      named_again (sym (==→eq c b'%' percent)) (unescaped-safename old).0,
      rw (unescaped-safename old).1 refl,
    )
    | inr plain ↦ rw plain (
      unescaped-plain c (fsys__safename old) plain
          ∙ ap (λ (t : List ℕ). c ∷ t) (unescaped-safename old).0,
      rw (unescaped-safename old).1 (rw other refl),
    )
  ])
]
