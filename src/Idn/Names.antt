-- ===== src/Idn/Names.antt =====
-- Domain names as their labels, for the code of src/idn.c.
use lua_conmanorg.Idn.{add}
use lua_conmanorg.Prelude.{
  ℕ, leb, Bool, false, ◌||◌, Option, none, some, List, [], ◌∷◌, ◌++◌, All, ◌≡◌, ◌≢◌, refl, ap, ◌∙◌,
}

-- The parts between the dots: the first one, and the others.
pub data Name : Type 0 where
  last : List ℕ → Name
  label : List ℕ → Name → Name

-- The text of a name.
unfoldable pub text : Name → List ℕ
text (last l) = l
text (label l rest) = l ++ (b'.' ∷ text rest)

-- Each label is changed on its own, and no label may fail.
unfoldable pub dotted : List ℕ → Option (List ℕ) → Option (List ℕ)
dotted l none = none
dotted l (some rest) = some (l ++ (b'.' ∷ rest))

unfoldable pub dotted_option : Option (List ℕ) → Option (List ℕ) → Option (List ℕ)
dotted_option none rest = none
dotted_option (some l) rest = dotted l rest

unfoldable pub each : (List ℕ → Option (List ℕ)) → Name → Option (List ℕ)
each f (last l) = f l
each f (label l rest) = dotted_option (f l) (each f rest)

-- The characters of a label.
abbrev pub IsLabel : List ℕ → Type 0
IsLabel = All (λ c. (c ≢ 0) × (c ≢ b'.'))

unfoldable pub Labels : (List ℕ → Type 0) → Name → Type 0
Labels P (last l) = P l
Labels P (label l rest) = P l × Labels P rest

unfoldable pub has_high : List ℕ → Bool
has_high [] = false
has_high (c ∷ l) = leb 128 c || has_high l

pub append_assoc : (xs ys zs : List ℕ) → (xs ++ ys) ++ zs ≡ xs ++ (ys ++ zs)
append_assoc [] ys zs = refl
append_assoc (x ∷ xs) ys zs = ap (λ l. x ∷ l) (append_assoc xs ys zs)

pub append_nil : (xs : List ℕ) → xs ++ [] ≡ xs
append_nil [] = refl
append_nil (x ∷ xs) = ap (λ l. x ∷ l) (append_nil xs)

pub add-dotted :
    (buf l : List ℕ) (o : Option (List ℕ))
    → add ((buf ++ l) ++ (b'.' ∷ [])) o ≡ add buf (dotted l o)
unfolding add dotted
add-dotted buf l none = refl
add-dotted buf l (some rest) =
    ap some (append_assoc (buf ++ l) (b'.' ∷ []) rest ∙ append_assoc buf l (b'.' ∷ rest))

pub add_nothing : (o : Option (List ℕ)) → add [] o ≡ o
unfolding add
add_nothing none = refl
add_nothing (some x) = refl
