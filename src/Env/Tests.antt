-- ===== src/Env/Tests.antt =====
-- The theorems about the environment at examples.
use lua_conmanorg.Env.{gettable, luaopen_org_conman_env}
use lua_conmanorg.Env.Getenv.{getenv, here, there, IsName, env-getenv}
use lua_conmanorg.Prelude.{codes, ℕ, ◌≡◌, refl, List, [], ◌∷◌, arith}

abbrev environ : List (List ℕ)
environ = codes "A=x" ∷ codes "A=y" ∷ []

abbrev name : List ℕ
name = codes "A"

name-IsName : IsName name
name-IsName = (omega arith, tt)

env-getenv_example : gettable (luaopen_org_conman_env environ) name ≡ getenv environ name
env-getenv_example =
    env-getenv environ name name-IsName (there (here refl), (there (here refl), tt))
