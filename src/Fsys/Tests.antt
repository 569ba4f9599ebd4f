-- ===== src/Fsys/Tests.antt =====
-- The theorems about src/fsys.c at examples.
use lua_conmanorg.Fsys.Modes.{fsys_l_pushperm, fsys_l_checkmode}
use lua_conmanorg.Fsys.Modes.RoundTrip.{checkmode-pushperm}
use lua_conmanorg.Fsys.Paths.{strrchr, fsys_basename, fsys_dirname}
use lua_conmanorg.Fsys.Paths.Parts.{dirname-basename}
use lua_conmanorg.Prelude.{ℕ, ◌≡◌, ◌⊎◌, List, [], ◌∷◌, ◌++◌, none, some, codes}

checkmode-pushperm_example : fsys_l_checkmode (some (fsys_l_pushperm 0x81a4)) 0 ≡ 0x1a4
checkmode-pushperm_example = checkmode-pushperm 0x81a4 0

abbrev path : List ℕ
path = codes "/tmp/x.tar"

dirname-basename_example :
    ((fsys_dirname path ++ (b'/' ∷ fsys_basename path) ≡ path)
      × (strrchr (fsys_basename path) b'/' ≡ none))
    ⊎ ((strrchr path b'/' ≡ none) × (fsys_dirname path ≡ codes ".") × (fsys_basename path ≡ path))
dirname-basename_example = dirname-basename path

abbrev names : List (List ℕ)
names = codes "." ∷ codes ".." ∷ codes "a" ∷ []
