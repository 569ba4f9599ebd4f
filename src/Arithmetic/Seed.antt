-- ===== src/Arithmetic/Seed.antt =====
-- `math_randomseed` of src/math.c. The variables of the environment, what the devices give, which files
-- can be written, the time and the texts of errors are parameters; the files are a store that is
-- passed along.
pub mod Again
use lua_conmanorg.Prelude.Numerals.{strtoul, out_of_range}
use lua_conmanorg.Prelude.{
  ℕ, zero, suc, ◌-◌, ◌^◌, ltb, ◌==◌, Bool, true, false, if◌then◌else◌, List, [], ◌∷◌, ◌++◌, Option,
  none, some, codes, same_string, pos, decimal, Outcome, ok, stop, lua_error, ◌>>=◌,
}

-- A name to its contents; a file that cannot be opened for reading is `none`.
abbrev pub Files : Type 0
Files = List ℕ → Option (List ℕ)

-- `random` and `urandom` are the number that fread() stores, where the device can be opened.
pub record System : Type 0 where
  pub seedbank_seed : Option (List ℕ)
  pub seedbank_file : Option (List ℕ)
  pub seedbank_log : Option (List ℕ)
  pub random : Option ℕ
  pub urandom : Option ℕ
  pub is_writable : List ℕ → Bool
  pub time : List ℕ
  pub error_text : List ℕ

-- The argument: a number, already as an `unsigned int`, or another value that is true or false.
pub data Argument : Type 0 where
  number : ℕ → Argument
  true_value : Argument
  false_value : Argument

unfoldable pub read_random : Option ℕ → Outcome ℕ
read_random none = stop (lua_error "The NSA is keeping you from seeding your RNG" [])
read_random (some seed) = ok seed

unfoldable pub read_urandom : Option ℕ → Outcome ℕ
read_urandom none = stop (lua_error "cannot seed RNG" [])
read_urandom (some seed) = ok seed

unfoldable pub normal : System → Argument → Outcome ℕ
normal sys (number seed) = ok seed
normal sys true_value = read_random sys.random
normal sys false_value = read_urandom sys.urandom

unfoldable pub seed_of : List ℕ → Outcome ℕ
seed_of seedbank =
    if out_of_range seedbank
    then stop (lua_error "SEEDBANK_SEED not a valid number" [])
    else if ltb (2 ^ 32 - 1) (strtoul seedbank).0
    then stop (lua_error "SEEDBANK_SEED range exceeded" [])
    else ok (strtoul seedbank).0

-- Up to `n` characters, and not beyond the end of the line.
unfoldable pub fgets : ℕ → List ℕ → List ℕ
fgets zero text = []
fgets (suc n) [] = []
fgets (suc n) (c ∷ text) = let rest = fgets n text in if c == b'\n' then c ∷ [] else c ∷ rest

unfoldable pub seed_from_file : System → Argument → Option (List ℕ) → Outcome ℕ
seed_from_file sys arg none = normal sys arg
seed_from_file sys arg (some text) = seed_of (fgets 63 text)

unfoldable pub last_seed : System → Files → Argument → List ℕ → Option (List ℕ) → Outcome ℕ
last_seed sys files arg seedbank none = seed_of seedbank
last_seed sys files arg seedbank (some name) = seed_from_file sys arg (files name)

unfoldable pub chosen_seed : System → Files → Argument → Option (List ℕ) → Outcome ℕ
chosen_seed sys files arg none = normal sys arg
chosen_seed sys files arg (some seedbank) =
    if same_string seedbank (codes "LAST")
    then last_seed sys files arg seedbank sys.seedbank_file
    else seed_of seedbank

unfoldable pub write : List ℕ → List ℕ → Files → Files
write name text files other = if same_string name other then some text else files other

unfoldable pub saved : System → ℕ → Files → Option (List ℕ) → Outcome Files
saved sys seed files none = ok files
saved sys seed files (some name) =
    if sys.is_writable name
    then ok (write name (decimal (pos seed) ++ (b'\n' ∷ [])) files)
    else stop (lua_error "SEEDBANK_FILE: %s" sys.error_text)

-- What a file has, to append to it.
unfoldable pub contents : Option (List ℕ) → List ℕ
contents none = []
contents (some text) = text

unfoldable pub logged : System → ℕ → Files → Option (List ℕ) → Files
logged sys seed files none = files
logged sys seed files (some name) =
    if sys.is_writable name
    then write name
        (contents (files name)
          ++ (sys.time ++ (codes ": " ++ (decimal (pos seed) ++ (b'\n' ∷ [])))))
        files
    else files

-- The number that srand() is called with and that Lua gets, and the files.
unfoldable pub math_randomseed : System → Argument → Files → Outcome (ℕ × Files)
math_randomseed sys arg files = chosen_seed sys files arg sys.seedbank_seed >>= λ seed.
    (saved sys seed files sys.seedbank_file >>= λ files2.
    ok (seed, logged sys seed files2 sys.seedbank_log))
