-- ===== src/Arithmetic/Tests.antt =====
-- The theorems about integer division at examples.
use lua_conmanorg.Arithmetic.{integer, math_idiv}
use lua_conmanorg.Arithmetic.Division.{IsLong, Divides, math_idiv-Divides}
use lua_conmanorg.Arithmetic.Seed.{
  Files, System, false_value, true_value, math_randomseed, logged, write, chosen_seed, saved,
  normal, read_urandom,
}
use lua_conmanorg.Arithmetic.Seed.Again.{line, randomseed-last}
use lua_conmanorg.Prelude.{
  none, some, codes, [], true, ◌≢◌, refl, ◌-◌, ◌^◌, ◌≡◌, ◌⊎◌, ℤ, magnitude, ◌<◌, pos, negsuc, ok,
  stop, undefined, arith,
}

seven : IsLong (negsuc 6)
unfolding IsLong
seven = omega arith

two : IsLong (pos 2)
unfolding IsLong
two = omega arith

not_zero : 0 < magnitude (pos 2)
unfolding magnitude
not_zero = omega arith

math_idiv-Divides_example :
    ((quot : ℤ) × (rem : ℤ) × (math_idiv (negsuc 6) (pos 2) ≡ ok (integer quot, integer rem))
      × Divides (negsuc 6) (pos 2) quot rem
      × IsLong quot
      × IsLong rem)
    ⊎ ((negsuc 6 ≡ negsuc (2 ^ 63 - 1))
        × (pos 2 ≡ negsuc 0)
        × (math_idiv (negsuc 6) (pos 2) ≡ stop undefined))
math_idiv-Divides_example = math_idiv-Divides (negsuc 6) (pos 2) seven two not_zero

abbrev first_system : System
first_system = record {
  seedbank_seed = none;
  seedbank_file = some (codes "seed");
  seedbank_log = some (codes "log");
  random = some 5;
  urandom = some 12345;
  is_writable = λ name. true;
  time = codes "2020-01-01T00:00:00";
  error_text = [];
}

abbrev later_system : System
later_system = record {
  seedbank_seed = some (codes "LAST");
  seedbank_file = some (codes "seed");
  seedbank_log = none;
  random = none;
  urandom = none;
  is_writable = λ name. true;
  time = [];
  error_text = [];
}

abbrev no_files : Files
no_files name = none

abbrev seeded_files : Files
seeded_files =
    logged first_system 12345 (write (codes "seed") (line 12345) no_files) (some (codes "log"))

first_run : math_randomseed first_system false_value no_files ≡ ok (12345, seeded_files)
unfolding math_randomseed chosen_seed normal read_urandom saved
first_run = refl

other_name : some (codes "log") ≢ some (codes "seed")
other_name = ground arith

randomseed-last_example :
    (files3 : Files) × (math_randomseed later_system true_value seeded_files ≡ ok (12345, files3))
randomseed-last_example =
    randomseed-last first_system later_system false_value true_value no_files seeded_files
      (codes "seed") 12345 refl other_name first_run (omega arith) refl refl refl
