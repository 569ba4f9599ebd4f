-- ===== src/Process/Affinity.antt =====
-- The set of processors of src/process.c, on Linux.
use lua_conmanorg.Prelude.{
  ℕ, zero, suc, ◌+◌, ◌<◌, ◌≤◌, ltb, ◌==◌, ◌&&◌, ◌≡◌, Bool, true, false, if◌then◌else◌, List, [],
  ◌∷◌, get_or, Option, none, some, arith,
}

-- `cpu_set_t`, which has 1,024 places; CPU_SET() does nothing for a number without a place.
abbrev pub CpuSet : Type 0
CpuSet = ℕ → Bool

abbrev pub cpu_zero : CpuSet
cpu_zero k = false

unfoldable pub cpu_set : ℕ → CpuSet → CpuSet
cpu_set n set k = if ltb n 1024 && k == n then true else set k

-- The array of Booleans for the processors from `i` on, for `n` of them.
unfoldable pub affinity_loop : CpuSet → ℕ → ℕ → List Bool
affinity_loop set i zero = []
affinity_loop set i (suc n) = (if ltb i 1024 then set i else false) ∷ affinity_loop set (suc i) n

unfoldable pub proclua_getaffinity : ℕ → CpuSet → List Bool
proclua_getaffinity cpus set = affinity_loop set 0 cpus

-- A table of Booleans, of which the element `i` is for the processor `i`; an element that is not there
-- is nil.
unfoldable pub table_loop : List Bool → ℕ → ℕ → CpuSet → CpuSet
table_loop flags i zero set = set
table_loop flags i (suc max) set =
    table_loop flags (suc i) max (if get_or flags i false then cpu_set i set else set)

-- Numbers, which count from 1.
unfoldable pub numbers_loop : List (Option ℕ) → ℕ → CpuSet → CpuSet
numbers_loop [] max set = set
numbers_loop (n ∷ numbers) zero set = set
numbers_loop (none ∷ numbers) (suc max) set = numbers_loop numbers max set
numbers_loop (some zero ∷ numbers) (suc max) set = numbers_loop numbers max set
numbers_loop (some (suc n) ∷ numbers) (suc max) set = numbers_loop numbers max (cpu_set n set)

pub data Processors : Type 0 where
  table : List Bool → Processors
  numbers : List (Option ℕ) → Processors

unfoldable pub proclua_setaffinity : ℕ → Processors → CpuSet
proclua_setaffinity max (table flags) = table_loop flags 0 max cpu_zero
proclua_setaffinity max (numbers ns) = numbers_loop ns max cpu_zero

get_or-affinity :
    (set : CpuSet) (i n k : ℕ)
    → k < n
    → i + k < 1024
    → get_or (affinity_loop set i n) k false ≡ set (i + k)
unfolding affinity_loop
get_or-affinity set i zero k h p = absurd (omega arith)
get_or-affinity set i (suc n) zero h p = ground arith
get_or-affinity set i (suc n) (suc k) h p = ground (arith, get_or-affinity set (suc i) n k)

table_loop-at :
    (flags : List Bool) (i max : ℕ) (set : CpuSet) (k : ℕ)
    → k < 1024
    → table_loop flags i max set k ≡ (
        if ltb k i
        then set k
        else if ltb k (i + max)
        then (if get_or flags k false then true else set k)
        else set k)
unfolding table_loop cpu_set
table_loop-at flags i zero set k h = ground arith
table_loop-at flags i (suc max) set k h = ground (
  arith,
  table_loop-at flags (suc i) max (if get_or flags i false then cpu_set i set else set) k h,
)

-- The table of the processors gives the set again, for every processor that there is.
pub setaffinity-getaffinity :
    (cpus : ℕ) (set : CpuSet) (k : ℕ)
    → cpus ≤ 1024
    → k < 1024
    → proclua_setaffinity cpus (table (proclua_getaffinity cpus set)) k
      ≡ (if ltb k cpus then set k else false)
unfolding proclua_setaffinity proclua_getaffinity
setaffinity-getaffinity cpus set k h place = ground (
  arith,
  table_loop-at (affinity_loop set 0 cpus) 0 cpus cpu_zero k place,
  get_or-affinity set 0 cpus k,
)
