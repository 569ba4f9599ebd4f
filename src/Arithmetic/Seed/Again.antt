-- ===== src/Arithmetic/Seed/Again.antt =====
-- A seed that `math_randomseed` of src/math.c has saved is found again.
use lua_conmanorg.Prelude.Numerals.{strtoul-decimal}
use lua_conmanorg.Arithmetic.Seed.{
  Files, System, Argument, seed_of, fgets, seed_from_file, last_seed, chosen_seed, write, saved,
  logged, math_randomseed,
}
use lua_conmanorg.Prelude.{
  ℕ, zero, suc, ◌+◌, ◌*◌, ◌/◌, ◌%◌, ◌^◌, ◌<◌, ◌≤◌, ◌≡◌, ◌≢◌, refl, ltb, Bool, true, false,
  if◌then◌else◌, List, [], ◌∷◌, ◌++◌, length, Option, none, some, codes, same_string,
  same_string→eq, same_string_refl, ok_inj, lua_error, pos, decimal, digits_from, All, sym, ap, ◌∙◌,
  arith, Outcome, ok, stop, ◌>>=◌, Bool-cases, inl, inr,
}

abbrev powers : ℕ → ℕ
powers zero = 1
powers (suc k) = powers k * 10

length-digits_from :
    (k fuel n : ℕ) (acc : List ℕ)
    → n < powers (suc k)
    → n < fuel
    → length (digits_from fuel n acc) ≤ suc k + length acc
unfolding digits_from
length-digits_from k zero n acc h f = absurd (omega arith)
length-digits_from zero (suc fuel) n acc h f = ground arith
length-digits_from (suc k) (suc fuel) n acc h f =
    ground (arith, length-digits_from k fuel (n / 10) ((b'0' + n % 10) ∷ acc))

abbrev NotEnd : ℕ → Type 0
NotEnd c = c ≢ b'\n'

All-if :
    (b : Bool) (xs ys : List ℕ) → All NotEnd xs → All NotEnd ys → All NotEnd (if b then xs else ys)
All-if true xs ys p q = p
All-if false xs ys p q = q

digits_from-NotEnd :
    (fuel n : ℕ) (acc : List ℕ) → All NotEnd acc → All NotEnd (digits_from fuel n acc)
unfolding digits_from
digits_from-NotEnd zero n acc l = l
digits_from-NotEnd (suc fuel) n acc l =
    All-if (ltb n 10) ((b'0' + n) ∷ acc) (digits_from fuel (n / 10) ((b'0' + n % 10) ∷ acc))
      (omega arith, l) (digits_from-NotEnd fuel (n / 10) ((b'0' + n % 10) ∷ acc) (omega arith, l))

fgets-line :
    (n : ℕ) (text : List ℕ)
    → All NotEnd text
    → length text < n
    → fgets n (text ++ (b'\n' ∷ [])) ≡ text ++ (b'\n' ∷ [])
unfolding fgets
fgets-line zero text l h = absurd (omega arith)
fgets-line (suc n) [] l h = ground arith
fgets-line (suc n) (c ∷ text) (d, l) h = ground (arith, fgets-line n text l)

seed_of-decimal :
    (seed : ℕ) → seed < 2 ^ 32 → seed_of (fgets 63 (decimal (pos seed) ++ (b'\n' ∷ []))) ≡ ok seed
unfolding seed_of decimal
seed_of-decimal seed h =
    let text =
      fgets-line 63 (decimal (pos seed)) (digits_from-NotEnd (suc seed) seed [] tt)
        (omega (arith, length-digits_from 9 (suc seed) seed [])) in
    let (value, range) = strtoul-decimal seed (b'\n' ∷ []) (omega arith) (refl, ground arith) in
    rw (text, value, range) (ground arith)

abbrev pub line : ℕ → List ℕ
line seed = decimal (pos seed) ++ (b'\n' ∷ [])

logged_elsewhere :
    (sys : System) (seed : ℕ) (files : Files) (log : Option (List ℕ)) (name : List ℕ)
    → log ≢ some name
    → logged sys seed files log name ≡ files name
unfolding logged write
logged_elsewhere sys seed files none name d = refl
logged_elsewhere sys seed files (some l) name d = elim (Bool-cases (same_string l name)) [
  | inl same ↦ absurd (d (ap some (same_string→eq l name same)))
  | inr differs ↦ ground arith
]

write-same : (name text : List ℕ) (files : Files) → write name text files name ≡ some text
unfolding write
write-same name text files = rw (same_string_refl name) refl

-- What is left of a run after the seed is chosen.
abbrev finish : System → Files → Option (List ℕ) → Outcome ℕ → Outcome (ℕ × Files)
finish sys files file chosen = chosen >>= λ seed.
    (saved sys seed files file >>= λ files2. ok (seed, logged sys seed files2 sys.seedbank_log))

finish-line :
    (sys : System) (files files2 : Files) (name : List ℕ) (seed : ℕ) (chosen : Outcome ℕ)
    → sys.seedbank_log ≢ some name
    → finish sys files (some name) chosen ≡ ok (seed, files2)
    → files2 name ≡ some (line seed)
unfolding saved
finish-line sys files files2 name seed (stop s) d e = absurd (ground arith)
finish-line sys files files2 name seed (ok s) d e = elim (Bool-cases (sys.is_writable name)) [
  | inl w ↦
      let pair = ok_inj (
        sym (
          ap
            (λ b.
              (if b
                then ok (write name (line s) files)
                else stop (lua_error "SEEDBANK_FILE: %s" sys.error_text))
              >>= λ files3. ok (s, logged sys s files3 sys.seedbank_log))
            w)
        ∙ e) in
      sym (ap (λ (p : ℕ × Files). p.1 name) pair)
      ∙ logged_elsewhere sys s (write name (line s) files) sys.seedbank_log name d
      ∙ write-same name (line s) files
      ∙ ap (λ (p : ℕ × Files). some (line p.0)) pair
  | inr denied ↦ absurd (ground arith)
]

found_seed :
    (later : System) (files : Files) (arg : Argument) (name : List ℕ) (seed : ℕ)
    → seed < 2 ^ 32
    → files name ≡ some (line seed)
    → later.seedbank_file ≡ some name
    → chosen_seed later files arg (some (codes "LAST")) ≡ ok seed
unfolding chosen_seed last_seed seed_from_file same_string
found_seed later files arg name seed h kept file = rw (file, kept, seed_of-decimal seed h) refl

saved_again :
    (sys : System) (files : Files) (name : List ℕ) (seed : ℕ)
    → sys.is_writable name ≡ true
    → finish sys files (some name) (ok seed)
      ≡ ok (seed, logged sys seed (write name (line seed) files) sys.seedbank_log)
unfolding saved
saved_again sys files name seed w = rw w refl

-- A run that ends without an error, with the file `name` in SEEDBANK_FILE and not in SEEDBANK_LOG,
-- saves the seed that it gives: a later run with SEEDBANK_SEED=LAST and the same file, which can still be written,
-- starts from that seed, whatever its argument is and whatever the first seed came from. The seed is a 32-bit number.
pub randomseed-last :
    (sys later : System) (arg again : Argument) (files files2 : Files) (name : List ℕ) (seed : ℕ)
    → sys.seedbank_file ≡ some name
    → sys.seedbank_log ≢ some name
    → math_randomseed sys arg files ≡ ok (seed, files2)
    → seed < 2 ^ 32
    → later.seedbank_seed ≡ some (codes "LAST")
    → later.seedbank_file ≡ some name
    → later.is_writable name ≡ true
    → (files3 : Files) × (math_randomseed later again files2 ≡ ok (seed, files3))
unfolding math_randomseed
randomseed-last sys later arg again files files2 name seed file elsewhere run h last file2 w =
    let kept =
      finish-line sys files files2 name seed (chosen_seed sys files arg sys.seedbank_seed) elsewhere
        (ap (λ o. finish sys files o (chosen_seed sys files arg sys.seedbank_seed)) (sym file)
          ∙ run) in
    (
      logged later seed (write name (line seed) files2) later.seedbank_log,
      ap (λ o. finish later files2 later.seedbank_file (chosen_seed later files2 again o)) last
          ∙ ap (finish later files2 later.seedbank_file)
              (found_seed later files2 again name seed h kept file2)
          ∙ ap (λ o. finish later files2 o (ok seed)) file2
          ∙ saved_again later files2 name seed w,
    )
