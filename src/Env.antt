-- ===== src/Env.antt =====
-- The table of src/env.c, which holds the environment.
pub mod Getenv
mod Tests
use lua_conmanorg.Prelude.{
  ℕ, Bool, true, false, if◌then◌else◌, Option, none, some, List, [], ◌∷◌, ◌++◌, same_string,
  split_at_first,
}

-- A Lua table from strings to strings: the value of a key is in its first pair.
abbrev pub Table : Type 0
Table = List (List ℕ × List ℕ)

unfoldable pub gettable : Table → List ℕ → Option (List ℕ)
gettable [] key = none
gettable (p ∷ rest) key =
    let found = gettable rest key in if same_string p.0 key then some p.1 else found

-- The key and the value of one string of `environ`.
unfoldable pub entry_value : Option (List ℕ) → List ℕ
entry_value none = []
entry_value (some value) = value

unfoldable pub entry : List ℕ → List ℕ × List ℕ
entry e = let parts = split_at_first b'=' e in (parts.0, entry_value parts.1)

-- `lua_settable` of a key that is not in the table.
unfoldable pub set_if_nil : Table → Option (List ℕ) → List ℕ × List ℕ → Table
set_if_nil table none pair = pair ∷ table
set_if_nil table (some old) pair = table

unfoldable pub fill : Table → List (List ℕ) → Table
fill table [] = table
fill table (e ∷ rest) =
    let pair = entry e in fill (set_if_nil table (gettable table pair.0) pair) rest

unfoldable pub luaopen_org_conman_env : List (List ℕ) → Table
luaopen_org_conman_env environ = fill [] environ
