-- ===== src/Fsys/Directory.antt =====
-- The directories of src/fsys.c. An open directory is the names that readdir() still gives; `none` is
-- the null pointer of a closed one, which readdir() must not get.
use lua_conmanorg.Prelude.{
  ℕ, zero, suc, out_of_fuel, ◌||◌, not, Bool, if◌then◌else◌, List, [], ◌∷◌, Option, none, some,
  codes, same_string, Outcome, ok, stop, undefined, lua_error, ◌>>=◌,
}

abbrev pub Dir : Type 0
Dir = Option (List (List ℕ))

unfoldable pub dir_meta___gc : Dir → Dir
dir_meta___gc dir = none

unfoldable pub dir_meta_read : Dir → Outcome (Option (List ℕ) × Dir)
dir_meta_read none = stop undefined
dir_meta_read (some []) = ok (none, some [])
dir_meta_read (some (name ∷ rest)) = ok (some name, some rest)

abbrev pub is_dots : List ℕ → Bool
is_dots name = same_string name (codes ".") || same_string name (codes "..")

unfoldable pub next_entry : List (List ℕ) → Option (List ℕ) × Dir
next_entry [] = (none, dir_meta___gc (some []))
next_entry (name ∷ rest) =
    let later = next_entry rest in if not (is_dots name) then (some name, some rest) else later

unfoldable pub dir_meta_next : Dir → Outcome (Option (List ℕ) × Dir)
dir_meta_next none = stop undefined
dir_meta_next (some names) = ok (next_entry names)

-- What opendir() gives: an error number, or the names that readdir() will give.
pub data Opened : Type 0 where
  refused : ℕ → Opened
  opened : List (List ℕ) → Opened

-- The userdata, or nil, and the error number.
unfoldable pub fsys_opendir : Opened → Option Dir × ℕ
fsys_opendir (refused errno) = (none, errno)
fsys_opendir (opened names) = (some (some names), 0)

-- The function that `for` calls.
pub data Function : Type 0 where
  meta_nil : Function
  meta_next : Function

unfoldable pub dir_meta_nil : Option Dir → Outcome (Option (List ℕ) × Option Dir)
dir_meta_nil state = ok (none, state)

-- The function and the state that `for` gets; the other two values are nil and the state again.
unfoldable pub fsys_dir : Opened → Function × Option Dir
fsys_dir o = elim (fsys_opendir o).0 as (λ _. Function × Option Dir) [
  | none ↦ (meta_nil, none)
  | some dir ↦ (meta_next, some dir)
]

-- A call by `for`; dir_meta_next() takes no nil.
unfoldable pub called : Function → Option Dir → Outcome (Option (List ℕ) × Option Dir)
called meta_nil state = dir_meta_nil state
called meta_next none = stop (lua_error "bad argument" [])
called meta_next (some dir) = dir_meta_next dir >>= λ r. ok (r.0, some r.1)

-- The loop `for` of Lua: the names that it sees, and the state after it.
unfoldable pub seen :
    (Option Dir → Outcome (List (List ℕ) × Option Dir))
    → Option (List ℕ) × Option Dir
    → Outcome (List (List ℕ) × Option Dir)
seen more (none, state) = ok ([], state)
seen more (some name, state) = more state >>= λ r. ok (name ∷ r.0, r.1)

unfoldable pub for_loop : ℕ → Function → Option Dir → Outcome (List (List ℕ) × Option Dir)
for_loop zero f state = stop out_of_fuel
for_loop (suc fuel) f state = called f state >>= seen (for_loop fuel f)

-- The entries of a directory without the two that stand for directories.
unfoldable pub entries : List (List ℕ) → List (List ℕ)
entries [] = []
entries (name ∷ rest) = let others = entries rest in if is_dots name then others else name ∷ others

abbrev in_state : Option (List ℕ) × Dir → Option (List ℕ) × Option Dir
in_state r = (r.0, some r.1)
