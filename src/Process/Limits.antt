-- ===== src/Process/Limits.antt =====
-- The limits of the process in src/process.c, with the numbers of Linux. What Lua makes of a text as
-- a number is a parameter, and what setrlimit() is called with is a value.
pub mod Quantity
use Prim.Native.String.{String}
use lua_conmanorg.StrCore.Metaphone.{toupper}
use lua_conmanorg.Prelude.Numerals.{strtoul}
use lua_conmanorg.Prelude.{
  ℕ, ◌+◌, ◌*◌, ◌-◌, ◌%◌, ◌^◌, ltb, leb, ◌==◌, Bool, true, false, ◌&&◌, ◌||◌, if◌then◌else◌, List,
  [], ◌∷◌, Option, none, some, codes, same_string, Outcome, ok, stop, lua_error, assertion, ◌>>=◌,
}

-- The character that a pointer points to.
abbrev pub first : List ℕ → ℕ
first [] = 0
first (c ∷ text) = c

-- `*pval *= factor`.
abbrev pub times : ℕ → ℕ → Outcome (Option ℕ)
times v factor = ok (some (v * factor % 2 ^ 64))

abbrev kept : ℕ → Outcome (Option ℕ)
kept v = ok (some v)

unfoldable pub cpu_suffix : ℕ → ℕ → Outcome (Option ℕ)
cpu_suffix v c =
    if c == b'S'
    then kept v
    else if c == b'M'
    then times v 60
    else if c == b'H'
    then times v 3600
    else if c == b'D'
    then times v 86400
    else if c == b'W'
    then times v 604800
    else if c == 0
    then kept v
    else ok none

unfoldable pub size_suffix : ℕ → ℕ → Outcome (Option ℕ)
size_suffix v c =
    if c == b'B'
    then kept v
    else if c == b'K'
    then times v 1024
    else if c == b'M'
    then times v (1024 * 1024)
    else if c == b'G'
    then times v (1024 * 1024 * 1024)
    else if c == 0
    then kept v
    else ok none

-- The new `*pval`, or `none` for `false`.
unfoldable pub limit_valid_suffix : ℕ → ℕ → List ℕ → Outcome (Option ℕ)
limit_valid_suffix v key unit =
    if key == 0
    then cpu_suffix v (toupper (first unit))
    else if (key == 7) || ((key == 6) || ((key == 10) || (key == 5)))
    then (if first unit == 0 then kept v else ok none)
    else if (key == 9) || ((key == 4) || ((key == 2) || ((key == 1) || ((key == 3) || (key == 8)))))
    then size_suffix v (toupper (first unit))
    else stop assertion

-- The table that both metatables share, by its rows.
abbrev pub limits : List (List ℕ × ℕ)
limits =
    (codes "vm", 9)
    ∷ (codes "core", 4)
    ∷ (codes "cpu", 0)
    ∷ (codes "data", 2)
    ∷ (codes "fsize", 1)
    ∷ (codes "nofile", 7)
    ∷ (codes "stack", 3)
    ∷ (codes "memlock", 8)
    ∷ (codes "nproc", 6)
    ∷ (codes "locks", 10)
    ∷ (codes "pages", 5)
    ∷ []

unfoldable pub rawget : List (List ℕ × ℕ) → List ℕ → Option ℕ
rawget [] name = none
rawget ((n, key) ∷ rows) name =
    let rest = rawget rows name in if same_string n name then some key else rest

-- `number` is already of the type `rlim_t`.
pub data LuaValue : Type 0 where
  number : ℕ → LuaValue
  string : List ℕ → LuaValue
  other : LuaValue

pub record RLimit : Type 0 where
  pub rlim_cur : ℕ
  pub rlim_max : ℕ

unfoldable pub suffixed : List ℕ → Option ℕ → Outcome ℕ
suffixed unit none = stop (lua_error "Illegal suffix: %c" (first unit ∷ []))
suffixed unit (some v) = ok v

module _ (tonumber : List ℕ → Option ℕ) where
  unfoldable pub text_value : ℕ → List ℕ → Option ℕ → Outcome ℕ
  text_value key text (some v) = ok v
  text_value key text none = let n = strtoul text in limit_valid_suffix n.0 key n.1 >>= suffixed n.1

  -- The new value, which the two functions read in the same way.
  unfoldable pub new_value : ℕ → LuaValue → Outcome ℕ
  new_value key (number v) = ok v
  new_value key (string text) = text_value key text (tonumber text)
  new_value key other = stop (lua_error "Non-supported value for resource" [])

  unfoldable pub hlimit_found : LuaValue → Option ℕ → Outcome (Option (ℕ × RLimit))
  hlimit_found value none = ok none
  hlimit_found value (some key) =
      new_value key value >>= λ v. ok (some (key, record { rlim_cur = v; rlim_max = v }))

  unfoldable pub hlimitlua_meta___newindex : List ℕ → LuaValue → Outcome (Option (ℕ × RLimit))
  hlimitlua_meta___newindex name value = hlimit_found value (rawget limits name)

  -- `getrlimit` is what the system has.
  unfoldable pub slimit_found : (ℕ → RLimit) → LuaValue → Option ℕ → Outcome (Option (ℕ × RLimit))
  slimit_found getrlimit value none = ok none
  slimit_found getrlimit value (some key) = new_value key value >>= λ v.
      ok (some (key, record { rlim_cur = v; rlim_max = (getrlimit key).rlim_max }))

  unfoldable pub slimitlua_meta___newindex :
      (ℕ → RLimit) → List ℕ → LuaValue → Outcome (Option (ℕ × RLimit))
  slimitlua_meta___newindex getrlimit name value = slimit_found getrlimit value (rawget limits name)

unfoldable pub limit_read : (RLimit → ℕ) → (ℕ → RLimit) → Option ℕ → Option ℕ
limit_read field getrlimit none = none
limit_read field getrlimit (some key) = some (field (getrlimit key))

abbrev pub hard_field : RLimit → ℕ
hard_field l = l.rlim_max

abbrev pub soft_field : RLimit → ℕ
soft_field l = l.rlim_cur

unfoldable pub hlimitlua_meta___index : (ℕ → RLimit) → List ℕ → Option ℕ
hlimitlua_meta___index getrlimit name = limit_read hard_field getrlimit (rawget limits name)

unfoldable pub slimitlua_meta___index : (ℕ → RLimit) → List ℕ → Option ℕ
slimitlua_meta___index getrlimit name = limit_read soft_field getrlimit (rawget limits name)
