-- ===== src/Process/Tests.antt =====
-- Runs of the functions of src/process.c on concrete values.
use lua_conmanorg.Prelude.Numerals.{
  digit_loop, ulong, skip_spaces, after_sign, magnitude_of, scanned, strtoul,
}
use lua_conmanorg.StrCore.Metaphone.{toupper}
use lua_conmanorg.Process.Affinity.{
  CpuSet, cpu_set, affinity_loop, proclua_getaffinity, table_loop, numbers_loop, table, numbers,
  proclua_setaffinity,
}
use lua_conmanorg.Process.Limits.{
  string, RLimit, limit_valid_suffix, size_suffix, suffixed, rawget, new_value, text_value,
  hlimit_found, hlimitlua_meta___newindex, slimitlua_meta___newindex,
}
use lua_conmanorg.Process.Limits.Quantity.{quantity, factor_of, seconds, newindex-quantity}
use lua_conmanorg.Process.Exec.{proclua_exec}
use lua_conmanorg.Process.Exec.Arrays.{strings, assignments, Denied, exec-arrays}
use lua_conmanorg.Prelude.Numerals.{
  strtoul, scanned, magnitude_of, after_sign, skip_spaces, digit_loop, ulong,
}
use lua_conmanorg.Prelude.{
  ℕ, ◌≡◌, ◌⊎◌, ◌||◌, refl, ◌==◌, Bool, true, List, [], ◌∷◌, ◌++◌, Option, none, some, codes, pos,
  decimal, same_string, ok, ◌>>=◌, map, arith,
}

abbrev signal_text : ℕ → List ℕ
signal_text sig = codes "signal"

abbrev even_ones : CpuSet
even_ones k = (k == 0) || (k == 2)

setaffinity_run : proclua_setaffinity 4 (table (proclua_getaffinity 4 even_ones)) 2 ≡ true
unfolding proclua_setaffinity proclua_getaffinity table_loop affinity_loop cpu_set
setaffinity_run = refl

-- The numbers count from 1.
numbers_run : proclua_setaffinity 4 (numbers (some 3 ∷ none ∷ some 1 ∷ [])) 2 ≡ true
unfolding proclua_setaffinity numbers_loop cpu_set
numbers_run = refl

abbrev no_number : List ℕ → Option ℕ
no_number text = none

abbrev system_limit : ℕ → RLimit
system_limit key = record { rlim_cur = 0; rlim_max = 86400 }

newindex-quantity_example :
    let text = string (decimal (pos 10) ++ codes "minutes") in
    let value = quantity 10 (codes "minutes") (factor_of seconds (codes "minutes")) in
    (hlimitlua_meta___newindex no_number (codes "cpu") text
      ≡ (value >>= λ v. ok (some (0, record { rlim_cur = v; rlim_max = v }))))
    × (slimitlua_meta___newindex no_number system_limit (codes "cpu") text ≡ (
        value >>= λ v.
        ok (some (0, record { rlim_cur = v; rlim_max = (system_limit 0).rlim_max }))))
unfolding same_string
newindex-quantity_example =
    newindex-quantity no_number system_limit (codes "cpu") 0 seconds 10 (codes "minutes") refl
      (omega arith) (refl, ground arith) refl

-- A unit without a number is taken for none of it.
unit_run :
    hlimitlua_meta___newindex no_number (codes "core") (string (codes "k"))
    ≡ ok (some (4, record { rlim_cur = 0; rlim_max = 0 }))
unfolding hlimitlua_meta___newindex hlimit_found rawget same_string new_value text_value
    limit_valid_suffix size_suffix toupper strtoul scanned magnitude_of after_sign skip_spaces
    suffixed ulong
unit_run = refl

-- 2^34 units of 2^30 bytes are no bytes.
wrap_run :
    hlimitlua_meta___newindex no_number (codes "vm") (string (codes "17179869184g"))
    ≡ ok (some (9, record { rlim_cur = 0; rlim_max = 0 }))
unfolding hlimitlua_meta___newindex hlimit_found rawget same_string new_value text_value
    limit_valid_suffix size_suffix toupper strtoul scanned magnitude_of after_sign skip_spaces
    digit_loop suffixed ulong
wrap_run = refl

abbrev all_memory : ℕ → ℕ → Bool
all_memory k size = true

abbrev variables : List (List ℕ × List ℕ)
variables = (codes "HOME", codes "/root") ∷ []

abbrev last_part : List ℕ → List ℕ
last_part path = codes "ls"

exec-arrays_example :
    let result =
      proclua_exec all_memory last_part []
        (codes "/bin/ls")
        (some (codes "-l") ∷ [])
        (some (strings variables)) in
    ((result ≡ ok none) × Denied all_memory (some (codes "-l") ∷ []) variables)
    ⊎ (result
        ≡ ok (
            some (
              map some (some (codes "ls") ∷ (some (codes "-l") ∷ (none ∷ []))),
              assignments variables ++ (none ∷ []),
            )))
exec-arrays_example =
    exec-arrays all_memory last_part [] (codes "/bin/ls") (some (codes "-l") ∷ []) variables
