-- ===== src/Env/Getenv.antt =====
-- The table of src/env.c against `getenv`.
use lua_conmanorg.Env.{
  Table, gettable, entry_value, entry, set_if_nil, fill, luaopen_org_conman_env,
}
use lua_conmanorg.Prelude.{
  ℕ, ◌==◌, true, false, if◌then◌else◌, Option, none, some, List, [], ◌∷◌, ◌++◌, same_string,
  same_string→eq, same_string_refl, split_at_first, All, Option-cases, Bool-cases, ◌≡◌, ◌≢◌, ◌⊎◌,
  inl, inr, refl, sym, ap, ◌∙◌, arith,
}

-- What `getenv` promises: the value behind the first string that is the name and a `=`.
unfoldable pub after_name : List ℕ → List ℕ → Option (List ℕ)
after_name [] [] = none
after_name [] (x ∷ xs) = if x == b'=' then some xs else none
after_name (n ∷ ns) [] = none
after_name (n ∷ ns) (x ∷ xs) = let rest = after_name ns xs in if x == n then rest else none

unfoldable pub or_else : Option (List ℕ) → Option (List ℕ) → Option (List ℕ)
or_else none other = other
or_else (some x) other = some x

unfoldable pub getenv : List (List ℕ) → List ℕ → Option (List ℕ)
getenv [] name = none
getenv (e ∷ rest) name = or_else (after_name name e) (getenv rest name)

-- A string with a `=` in it.
pub data HasEquals : List ℕ → Type 0 where
  here : {x : ℕ} {xs : List ℕ} → x ≡ b'=' → HasEquals (x ∷ xs)
  there : {x : ℕ} {xs : List ℕ} → HasEquals xs → HasEquals (x ∷ xs)

-- A name of a variable.
abbrev pub IsName : List ℕ → Type 0
IsName = All (λ c. c ≢ b'=')

unfoldable one_pair : List ℕ → List ℕ → Option (List ℕ)
one_pair e name = if same_string (entry e).0 name then some (entry e).1 else none

entry-after_name :
    (name e : List ℕ) → IsName name → HasEquals e → one_pair e name ≡ after_name name e
unfolding entry split_at_first entry_value same_string after_name one_pair
entry-after_name [] [] n h = elim h [ ]
entry-after_name (c ∷ cs) [] n h = elim h [ ]
entry-after_name [] (x ∷ xs) n (here p) = ground arith
entry-after_name [] (x ∷ xs) n (there h) = ground arith
entry-after_name (c ∷ cs) (x ∷ xs) n (here p) = ground (arith, n.0)
entry-after_name (c ∷ cs) (x ∷ xs) n (there h) = ground (arith, n.0, entry-after_name cs xs n.1 h)

-- One round.
or_else-none : (o : Option (List ℕ)) → or_else o none ≡ o
unfolding or_else
or_else-none none = refl
or_else-none (some x) = refl

gettable_set :
    (table : Table) (e name : List ℕ)
    → gettable (set_if_nil table (gettable table (entry e).0) (entry e)) name
      ≡ or_else (gettable table name) (one_pair e name)
unfolding gettable set_if_nil or_else one_pair
gettable_set table e name =
    by_cases (Option-cases (gettable table (entry e).0)) (Bool-cases (same_string (entry e).0 name))
  where
    by_cases :
        (gettable table (entry e).0 ≡ none) ⊎ ((v : List ℕ) × (gettable table (entry e).0 ≡ some v))
        → (same_string (entry e).0 name ≡ true) ⊎ (same_string (entry e).0 name ≡ false)
        → gettable (set_if_nil table (gettable table (entry e).0) (entry e)) name
          ≡ or_else
              (gettable table name)
              (if same_string (entry e).0 name then some (entry e).1 else none)
    by_cases (inl new) (inl same) =
        ground (arith, ap (gettable table) (same_string→eq (entry e).0 name same))
    by_cases (inl new) (inr other) = ground (arith, or_else-none (gettable table name))
    by_cases (inr old) (inl same) =
        ground (arith, old.1, ap (gettable table) (same_string→eq (entry e).0 name same))
    by_cases (inr old) (inr other) = ground (arith, old.1, or_else-none (gettable table name))

or_else_assoc : (a b c : Option (List ℕ)) → or_else (or_else a b) c ≡ or_else a (or_else b c)
unfolding or_else
or_else_assoc none b c = refl
or_else_assoc (some x) b c = refl

fill_lem :
    (table : Table) (environ : List (List ℕ)) (name : List ℕ)
    → IsName name
    → All HasEquals environ
    → gettable (fill table environ) name ≡ or_else (gettable table name) (getenv environ name)
unfolding fill getenv
fill_lem table [] name n h = sym (or_else-none (gettable table name))
fill_lem table (e ∷ rest) name n h =
    fill_lem (set_if_nil table (gettable table (entry e).0) (entry e)) rest name n h.1
    ∙ ap (λ o. or_else o (getenv rest name)) (gettable_set table e name)
    ∙ or_else_assoc (gettable table name) (one_pair e name) (getenv rest name)
    ∙ ap (λ o. or_else (gettable table name) (or_else o (getenv rest name)))
        (entry-after_name name e n h.0)

-- Where every string of the environment has a `=`, the table gives for every name what `getenv`
-- gives: the value of the first string for that name, or nothing.
pub env-getenv :
    (environ : List (List ℕ)) (name : List ℕ)
    → IsName name
    → All HasEquals environ
    → gettable (luaopen_org_conman_env environ) name ≡ getenv environ name
unfolding luaopen_org_conman_env gettable or_else
env-getenv environ name n h = fill_lem [] environ name n h

whole_name : (xs : List ℕ) → IsName xs → split_at_first b'=' xs ≡ (xs, none)
unfolding split_at_first
whole_name [] h = refl
whole_name (x ∷ xs) h = ground (arith, h.0, whole_name xs h.1)

no_equals : (name : List ℕ) → IsName name → entry name ≡ (name, [])
unfolding entry entry_value
no_equals name n = ap (λ (p : List ℕ × Option (List ℕ)). (p.0, entry_value p.1)) (whole_name name n)

not_itself : (name : List ℕ) → after_name name name ≡ none
unfolding after_name
not_itself [] = refl
not_itself (n ∷ ns) = ground (arith, not_itself ns)

behind_name : (name value : List ℕ) → after_name name (name ++ (b'=' ∷ value)) ≡ some value
unfolding after_name
behind_name [] value = refl
behind_name (n ∷ ns) value = ground (arith, behind_name ns value)

kept :
    (table : Table) (environ : List (List ℕ)) (name v : List ℕ)
    → gettable table name ≡ some v
    → gettable (fill table environ) name ≡ some v
unfolding fill or_else
kept table [] name v h = h
kept table (e ∷ rest) name v h =
    kept (set_if_nil table (gettable table (entry e).0) (entry e)) rest name v
      (gettable_set table e name ∙ ap (λ o. or_else o (one_pair e name)) h)

-- A string with no `=` is taken for a variable of that name with an empty value, and hides the
-- variable of that name behind it, which `getenv` finds.
bare_string_hides :
    (name value : List ℕ) (rest : List (List ℕ))
    → IsName name
    → (gettable (luaopen_org_conman_env (name ∷ (name ++ (b'=' ∷ value)) ∷ rest)) name ≡ some [])
      × (getenv (name ∷ (name ++ (b'=' ∷ value)) ∷ rest) name ≡ some value)
unfolding luaopen_org_conman_env getenv fill one_pair or_else gettable
bare_string_hides name value rest n =
    let more = (name ++ (b'=' ∷ value)) ∷ rest in
    let first : gettable (set_if_nil [] (gettable [] (entry name).0) (entry name)) name ≡ some [] =
      gettable_set [] name name ∙ rw (no_equals name n) (rw (same_string_refl name) refl) in
    (
      kept (set_if_nil [] (gettable [] (entry name).0) (entry name)) more name [] first,
      rw (not_itself name) (rw (behind_name name value) refl),
    )
