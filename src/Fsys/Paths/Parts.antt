-- ===== src/Fsys/Paths/Parts.antt =====
-- The parts of a file's name that src/fsys.c gives make the name again.
use lua_conmanorg.Fsys.Paths.{
  last_place, strrchr, base_from, fsys_basename, dir_from, fsys_dirname, dot_behind, extension_from,
  fsys_extension, filename_from, fsys_filename,
}
use lua_conmanorg.Prelude.{
  some_inj, subst, ℕ, zero, suc, ◌<◌, ltb, ◌==◌, ◌≡◌, ◌⊎◌, inl, inr, refl, sym, ap, ◌∙◌, Bool, true,
  false, List, [], ◌∷◌, ◌++◌, Option, none, some, take, drop, codes, Bool-cases, Option-cases,
  arith,
}

-- What stands before and behind the last place.
Split : List ℕ → ℕ → ℕ → Type 0
Split s c i = (take i s ++ (c ∷ drop (suc i) s) ≡ s) × (strrchr (drop (suc i) s) c ≡ none)

Split-last :
    (x : ℕ) (s : List ℕ) (c i : ℕ) (b : Bool) (o : Option ℕ)
    → (x == c) ≡ b
    → strrchr s c ≡ o
    → ((j : ℕ) → o ≡ some j → Split s c j)
    → last_place b o ≡ some i
    → Split (x ∷ s) c i
unfolding last_place Split
Split-last x s c i b (some j) e p later h =
    let split = later j refl in
    subst (Split (x ∷ s) c) (some_inj h) (ap (λ (t : List ℕ). x ∷ t) split.0, split.1)
Split-last x s c i true none e p later h =
    let same : c ≡ x = ground arith in
    subst (Split (x ∷ s) c) (some_inj h) (ap (λ (y : ℕ). y ∷ s) same, p)
Split-last x s c i false none e p later h = cc

strrchr-Split : (s : List ℕ) (c i : ℕ) → strrchr s c ≡ some i → Split s c i
unfolding strrchr
strrchr-Split [] c i e = cc
strrchr-Split (x ∷ s) c i e =
    Split-last x s c i (x == c) (strrchr s c) refl refl (λ j. strrchr-Split s c j) e

-- No character behind its last place.
behind-last :
    (b : Bool) (o : Option ℕ) (n : ℕ)
    → ((i : ℕ) → last_place b o ≡ some i → i < suc n)
    → (i : ℕ) → o ≡ some i
    → i < n
unfolding last_place
behind-last b none n h i e = cc
behind-last b (some j) n h i e =
    let last = h (suc j) refl in let same = some_inj e in omega (arith, last, same)

strrchr-drop :
    (s : List ℕ) (c n : ℕ) → ((i : ℕ) → strrchr s c ≡ some i → i < n) → strrchr (drop n s) c ≡ none
unfolding strrchr
strrchr-drop [] c zero h = refl
strrchr-drop [] c (suc n) h = refl
strrchr-drop (x ∷ s) c (suc n) h = strrchr-drop s c n (behind-last (x == c) (strrchr s c) n h)
strrchr-drop (x ∷ s) c zero h = elim (Option-cases (strrchr (x ∷ s) c)) [
  | inl nowhere ↦ nowhere
  | inr somewhere ↦ (let never = h somewhere.0 somewhere.1 in absurd (omega (arith, never)))
]

-- Where the name has a slash, the directory, a slash and the last segment make the name again, and
-- the last segment has no slash; where it has none, the directory is `.` and the segment is the
-- name.
pub dirname-basename :
    (path : List ℕ)
    → ((fsys_dirname path ++ (b'/' ∷ fsys_basename path) ≡ path)
        × (strrchr (fsys_basename path) b'/' ≡ none))
      ⊎ ((strrchr path b'/' ≡ none) × (fsys_dirname path ≡ codes ".") × (fsys_basename path ≡ path))
unfolding fsys_dirname fsys_basename base_from dir_from Split
dirname-basename path = elim (Option-cases (strrchr path b'/')) [
  | inl no_slash ↦ inr (no_slash, rw no_slash refl, rw no_slash refl)
  | inr slash ↦ inl (rw slash.1 (strrchr-Split path b'/' slash.0 slash.1))
]

-- Where a dot stands in the last segment, the name without its extension, a dot and the extension
-- make the name again, and the extension has neither a dot nor a slash; otherwise there is no
-- extension, and the name without it is the name.
filename-extension :
    (path : List ℕ)
    → ((fsys_filename path ++ (b'.' ∷ fsys_extension path) ≡ path)
        × (strrchr (fsys_extension path) b'.' ≡ none)
        × (strrchr (fsys_extension path) b'/' ≡ none))
      ⊎ ((fsys_filename path ≡ path) × (fsys_extension path ≡ []))
unfolding fsys_filename fsys_extension filename_from extension_from dot_behind Split
filename-extension path = by_places (strrchr path b'.') (strrchr path b'/') refl refl
  where
    by_places :
        (dot slash : Option ℕ)
        → strrchr path b'.' ≡ dot
        → strrchr path b'/' ≡ slash
        → ((filename_from path (dot_behind dot slash)
                ++ (b'.' ∷ extension_from path (dot_behind dot slash))
              ≡ path)
            × (strrchr (extension_from path (dot_behind dot slash)) b'.' ≡ none)
            × (strrchr (extension_from path (dot_behind dot slash)) b'/' ≡ none))
          ⊎ ((filename_from path (dot_behind dot slash) ≡ path)
              × (extension_from path (dot_behind dot slash) ≡ []))
    by_places none slash e f = inr (refl, refl)
    by_places (some dot) none e f =
        let split = strrchr-Split path b'.' dot e in
        inl (split.0, split.1, strrchr-drop path b'/' (suc dot) (λ i g. cc))
    by_places (some dot) (some slash) e f = elim (Bool-cases (ltb slash dot)) [
      | inl behind ↦
          let split = strrchr-Split path b'.' dot e in
          rw behind (
            inl (
              split.0,
              split.1,
              strrchr-drop path b'/' (suc dot)
                  (λ i g. (let same = some_inj (sym g ∙ f) in ground arith)),
            ))
      | inr before ↦ rw before (inr (refl, refl))
    ]
