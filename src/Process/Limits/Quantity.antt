-- ===== src/Process/Limits/Quantity.antt =====
-- Which quantity the limits of src/process.c take a text for.
use lua_conmanorg.Prelude.Numerals.{Suffix, strtoul-decimal}
use lua_conmanorg.StrCore.Metaphone.{toupper}
use lua_conmanorg.Process.Limits.{
  limits, rawget, first, limit_valid_suffix, cpu_suffix, size_suffix, suffixed, text_value,
  new_value, hlimit_found, hlimitlua_meta___newindex, slimit_found, slimitlua_meta___newindex,
  string, RLimit,
}
use lua_conmanorg.Prelude.{
  ℕ, same_string, same_string→eq, some_inj, subst, ◌*◌, ◌%◌, ◌^◌, ◌<◌, ◌≡◌, refl, ◌==◌,
  if◌then◌else◌, List, [], ◌∷◌, ◌++◌, Option, none, some, pos, decimal, All, codes, ◌>>=◌, arith,
  ok, stop, lua_error, Outcome, Bool-cases, inl, inr,
}

-- The kinds of resources, and the units that a quantity of each is written in.
pub data Kind : Type 0 where
  seconds : Kind
  count : Kind
  bytes : Kind

abbrev pub resources : List (List ℕ × (ℕ × Kind))
resources =
    (codes "cpu", (0, seconds))
    ∷ (codes "nofile", (7, count))
    ∷ (codes "nproc", (6, count))
    ∷ (codes "locks", (10, count))
    ∷ (codes "pages", (5, count))
    ∷ (codes "vm", (9, bytes))
    ∷ (codes "core", (4, bytes))
    ∷ (codes "data", (2, bytes))
    ∷ (codes "fsize", (1, bytes))
    ∷ (codes "stack", (3, bytes))
    ∷ (codes "memlock", (8, bytes))
    ∷ []

-- By the capital letter of the unit.
abbrev pub units : Kind → List (ℕ × ℕ)
units seconds = (b'S', 1) ∷ (b'M', 60) ∷ (b'H', 3600) ∷ (b'D', 86400) ∷ (b'W', 604800) ∷ []
units count = []
units bytes = (b'B', 1) ∷ (b'K', 1024) ∷ (b'M', 1024 ^ 2) ∷ (b'G', 1024 ^ 3) ∷ []

abbrev pub find_unit : ℕ → List (ℕ × ℕ) → Option ℕ
find_unit c [] = none
find_unit c ((u, factor) ∷ rows) =
    let rest = find_unit c rows in if c == u then some factor else rest

-- Only the first letter counts, and no letter is the factor 1.
abbrev pub factor_of : Kind → List ℕ → Option ℕ
factor_of kind [] = some 1
factor_of kind (c ∷ unit) = find_unit (toupper c) (units kind)

unfoldable pub quantity : ℕ → List ℕ → Option ℕ → Outcome ℕ
quantity n unit none = stop (lua_error "Illegal suffix: %c" (first unit ∷ []))
quantity n unit (some factor) = ok (n * factor % 2 ^ 64)

seconds_lem :
    (n : ℕ) (unit : List ℕ)
    → n < 2 ^ 64
    → Suffix unit
    → (limit_valid_suffix n 0 unit >>= suffixed unit) ≡ quantity n unit (factor_of seconds unit)
unfolding limit_valid_suffix cpu_suffix suffixed quantity toupper
seconds_lem n [] h s = ground arith
seconds_lem n (c ∷ unit) h s = ground arith

count_lem :
    (n : ℕ) (unit : List ℕ)
    → n < 2 ^ 64
    → Suffix unit
    → (limit_valid_suffix n 7 unit >>= suffixed unit) ≡ quantity n unit (factor_of count unit)
unfolding limit_valid_suffix suffixed quantity
count_lem n [] h s = ground arith
count_lem n (c ∷ unit) h s = ground arith

bytes_lem :
    (n : ℕ) (unit : List ℕ)
    → n < 2 ^ 64
    → Suffix unit
    → (limit_valid_suffix n 9 unit >>= suffixed unit) ≡ quantity n unit (factor_of bytes unit)
unfolding limit_valid_suffix size_suffix suffixed quantity toupper
bytes_lem n [] h s = ground arith
bytes_lem n (c ∷ unit) h s = ground arith

-- The resource has its number in the table of the code, and the suffixes of its kind.
abbrev Suffixed : ℕ × Kind → Type 0
Suffixed (key, kind) =
    (n : ℕ) (unit : List ℕ)
    → n < 2 ^ 64
    → Suffix unit
    → (limit_valid_suffix n key unit >>= suffixed unit) ≡ quantity n unit (factor_of kind unit)

abbrev Named : List ℕ × (ℕ × Kind) → Type 0
Named (name, (key, kind)) = (rawget limits name ≡ some key) × Suffixed (key, kind)

resources-Named : All Named resources
unfolding rawget same_string limit_valid_suffix
resources-Named = (
  (refl, seconds_lem),
  (
    (refl, count_lem),
    (
      (refl, count_lem),
      (
        (refl, count_lem),
        (
          (refl, count_lem),
          (
            (refl, bytes_lem),
            (
              (refl, bytes_lem),
              (
                (refl, bytes_lem),
                ((refl, bytes_lem), ((refl, bytes_lem), ((refl, bytes_lem), tt))),
              ),
            ),
          ),
        ),
      ),
    ),
  ),
)

abbrev pub find_resource : List (List ℕ × (ℕ × Kind)) → List ℕ → Option (ℕ × Kind)
find_resource [] name = none
find_resource ((n, r) ∷ rows) name =
    let rest = find_resource rows name in if same_string n name then some r else rest

-- What holds of every row holds of the one that is found.
find_resource-All {ℓ} :
    (P : List ℕ × (ℕ × Kind) → Type ℓ) (rows : List (List ℕ × (ℕ × Kind))) (name : List ℕ)
    (r : ℕ × Kind)
    → All P rows
    → find_resource rows name ≡ some r
    → P (name, r)
find_resource-All P [] name r ps e = absurd (ground arith)
find_resource-All P ((n, q) ∷ rows) name r (p, ps) e = elim (Bool-cases (same_string n name)) [
  | inl same ↦
      subst (λ x. P (x, r)) (same_string→eq n name same)
        (subst (λ y. P (n, y)) (some_inj (ground arith)) p)
  | inr differs ↦ find_resource-All P rows name r ps (ground arith)
]

-- A limit that is written as a decimal number and a unit, of a resource that the library knows: the
-- hard one sets both limits and the soft one only its own, to the number times the factor of the
-- unit's first letter, modulo 2^64; a letter that is no unit of that resource is an error.
-- The number is below 2^64, the unit starts with no digit and no NUL, and Lua takes the text for no number.
pub newindex-quantity :
    (tonumber : List ℕ → Option ℕ) (getrlimit : ℕ → RLimit) (name : List ℕ) (key : ℕ) (kind : Kind)
    (n : ℕ) (unit : List ℕ)
    → find_resource resources name ≡ some (key, kind)
    → n < 2 ^ 64
    → Suffix unit
    → tonumber (decimal (pos n) ++ unit) ≡ none
    → let text = string (decimal (pos n) ++ unit) in
      let value = quantity n unit (factor_of kind unit) in
      (hlimitlua_meta___newindex tonumber name text
        ≡ (value >>= λ v. ok (some (key, record { rlim_cur = v; rlim_max = v }))))
      × (slimitlua_meta___newindex tonumber getrlimit name text ≡ (
          value >>= λ v.
          ok (some (key, record { rlim_cur = v; rlim_max = (getrlimit key).rlim_max }))))
unfolding hlimitlua_meta___newindex slimitlua_meta___newindex hlimit_found slimit_found new_value
    text_value
newindex-quantity tonumber getrlimit name key kind n unit known h s t =
    let (row, taken) = find_resource-All Named resources name (key, kind) resources-Named known in
    let number = (strtoul-decimal n unit h s).0 in
    let value = taken n unit h s in
    (rw (row, t, number, value) refl, rw (row, t, number, value) refl)
