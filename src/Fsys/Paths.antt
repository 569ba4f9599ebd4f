-- ===== src/Fsys/Paths.antt =====
-- The functions of src/fsys.c on names of files, where the directory separator is `/`.
pub mod Parts
pub mod Escape
use lua_conmanorg.Prelude.{
  ℕ, zero, suc, ltb, ◌==◌, Bool, true, false, if◌then◌else◌, List, [], ◌∷◌, ◌++◌, Option, none,
  some, take, drop, codes,
}

-- The last place of a character.
unfoldable pub last_place : Bool → Option ℕ → Option ℕ
last_place here (some i) = some (suc i)
last_place true none = some 0
last_place false none = none

unfoldable pub strrchr : List ℕ → ℕ → Option ℕ
strrchr [] c = none
strrchr (x ∷ s) c = last_place (x == c) (strrchr s c)

unfoldable pub base_from : List ℕ → Option ℕ → List ℕ
base_from name none = name
base_from name (some slash) = drop (suc slash) name

unfoldable pub fsys_basename : List ℕ → List ℕ
fsys_basename name = base_from name (strrchr name b'/')

unfoldable pub dir_from : List ℕ → Option ℕ → List ℕ
dir_from name none = codes "."
dir_from name (some slash) = take slash name

unfoldable pub fsys_dirname : List ℕ → List ℕ
fsys_dirname name = dir_from name (strrchr name b'/')

-- The dot, where it stands behind the slash: no slash is before every place.
unfoldable pub dot_behind : Option ℕ → Option ℕ → Option ℕ
dot_behind none slash = none
dot_behind (some dot) none = some dot
dot_behind (some dot) (some slash) = if ltb slash dot then some dot else none

unfoldable pub extension_from : List ℕ → Option ℕ → List ℕ
extension_from name none = []
extension_from name (some dot) = drop (suc dot) name

unfoldable pub fsys_extension : List ℕ → List ℕ
fsys_extension name = extension_from name (dot_behind (strrchr name b'.') (strrchr name b'/'))

unfoldable pub filename_from : List ℕ → Option ℕ → List ℕ
filename_from name none = name
filename_from name (some dot) = take dot name

unfoldable pub fsys_filename : List ℕ → List ℕ
fsys_filename name = filename_from name (dot_behind (strrchr name b'.') (strrchr name b'/'))

unfoldable pub fsys__safename : List ℕ → List ℕ
fsys__safename [] = []
fsys__safename (c ∷ old) =
    let rest = fsys__safename old in
    if c == b'/' then codes "%2F" ++ rest else if c == b'%' then codes "%25" ++ rest else c ∷ rest
