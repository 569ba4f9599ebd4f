-- ===== src/Process/Exec/Arrays.antt =====
-- The arrays of `proclua_exec` in src/process.c are complete, and no write goes past their ends.
use mathlib.Core.List.{append-nil, append_assoc}
use lua_conmanorg.Process.Exec.{
  Pointer, room_for, put_arg, argv_size, blank_array, argv_loop, filled_argv, Envp, c_string,
  assignment, proc_growenvp, room, put, put_assignment, add_variable, envp_loop, terminated_envp,
  filled_envp, given, proclua_exec,
}
use lua_conmanorg.Prelude.{
  ℕ, suc, ◌+◌, ◌*◌, ◌≤◌, ◌<◌, ◌≡◌, refl, ap, ◌∙◌, leb, ◌==◌, Bool, true, false, List, [], ◌∷◌, ◌++◌,
  length, set, Option, none, some, map, Outcome, ok, ◌>>=◌, All, arith, length-append, le→leb,
  lt→ltb, subst, sym, ap₂, Bool-cases, inl, inr, ◌⊎◌,
}

abbrev written_cells : List Pointer → List (Option Pointer)
written_cells = map some

set-append :
    (done : List (Option Pointer)) (c : Option Pointer) (rest : List (Option Pointer))
    (v : Option Pointer)
    → set (done ++ (c ∷ rest)) (length done) v ≡ done ++ (v ∷ rest)
set-append [] c rest v = refl
set-append (d ∷ done) c rest v = ap (◌∷◌ d) (set-append done c rest v)

put_arg_lem :
    (done : List (Option Pointer)) (c : Option Pointer) (rest : List (Option Pointer)) (v : Pointer)
    → put_arg (length done) v (done ++ (c ∷ rest)) ≡ ok (done ++ (some v ∷ rest))
unfolding put_arg
put_arg_lem done c rest v =
    rw
      (lt→ltb (length done) (length (done ++ (c ∷ rest)))
        (omega (arith, length-append done (c ∷ rest))))
      (ap ok (set-append done c rest (some v)))

argv_loop_lem :
    (args : List Pointer) (done : List (Option Pointer))
    → argv_loop args (length done) (done ++ blank_array (suc (length args)))
      ≡ ok (done ++ written_cells (args ++ (none ∷ [])))
unfolding argv_loop blank_array
argv_loop_lem [] done = put_arg_lem done none [] none
argv_loop_lem (arg ∷ args) done =
    let cells = blank_array (suc (length args)) in
    ap (λ (m : Outcome (List (Option Pointer))). m >>= argv_loop args (suc (length done)))
      (put_arg_lem done none cells arg)
    ∙ sym (
        ap₂ (argv_loop args) (length-append done (some arg ∷ []) ∙ omega arith)
          (append_assoc done (some arg ∷ []) cells))
    ∙ argv_loop_lem args (done ++ (some arg ∷ []))
    ∙ ap ok (append_assoc done (some arg ∷ []) (written_cells (args ++ (none ∷ []))))

first_cell :
    (name : List ℕ) (args : List Pointer)
    → (put_arg 0 (some name) (blank_array (suc (suc (length args)))) >>= argv_loop args 1)
      ≡ ok (written_cells (some name ∷ (args ++ (none ∷ []))))
unfolding blank_array
first_cell name args =
    ap (λ (m : Outcome (List (Option Pointer))). m >>= argv_loop args 1)
      (put_arg_lem [] none (blank_array (suc (length args))) (some name))
    ∙ argv_loop_lem args (some (some name) ∷ [])

filled_argv_lem :
    (name : List ℕ) (args : List Pointer)
    → filled_argv name args ≡ ok (written_cells (some name ∷ (args ++ (none ∷ []))))
unfolding filled_argv argv_size
filled_argv_lem name args =
    let cells : room_for ((length args + 2) * 8) ≡ suc (suc (length args)) = omega arith in
    rw cells (first_cell name args)

-- A variable that is a string, and its value.
abbrev pub strings : List (List ℕ × List ℕ) → List (Pointer × Pointer)
strings [] = []
strings ((name, value) ∷ vars) = (some name, some value) ∷ strings vars

abbrev pub assignments : List (List ℕ × List ℕ) → List Pointer
assignments [] = []
assignments ((name, value) ∷ vars) = some (assignment name value) ∷ assignments vars

length-c_string : (text : List ℕ) → length (c_string text) ≤ length text
unfolding c_string
length-c_string [] = omega arith
length-c_string (c ∷ text) = ground (arith, length-c_string text)

sized :
    (name value : List ℕ)
    → leb (suc (length (assignment name value))) (length name + length value + 3) ≡ true
sized name value = le→leb (suc (length (assignment name value))) (length name + length value + 3) (
    omega (
      arith,
      length-append (c_string name) (b'=' ∷ c_string value),
      length-c_string name,
      length-c_string value,
    ))

-- The pointers that are written fit, the memory is as long as `envm` says, and each variable has
-- taken two calls for memory at most.
abbrev Fits : Envp → Type 0
Fits e =
    (length e.written ≤ e.envm) × (e.allocated ≡ e.envm * 8) × (e.calls ≤ 1 + 2 * length e.written)

-- There is room for one more.
abbrev HasRoom : Envp → Type 0
HasRoom e =
    (length e.written < e.envm) × (e.allocated ≡ e.envm * 8) × (e.calls ≤ 2 + 2 * length e.written)

module _ (memory : ℕ → ℕ → Bool) (Size : ℕ → Type 0) (total : ℕ)
    (grows : (n : ℕ) → n ≤ total → Size ((n + 64) * 8)) where
  -- One of the requests for memory is not granted.
  abbrev Lost : Type 0
  Lost = (k : ℕ) × (size : ℕ) × (k ≤ 1 + 2 * total) × Size size × (memory k size ≡ false)

  -- There is no memory, or the pointers `ps` are written and there is room for one more.
  abbrev Prepared : List Pointer → Option Envp → Type 0
  Prepared ps o = ((o ≡ none) × Lost) ⊎ ((e : Envp) × (o ≡ some e) × (e.written ≡ ps) × HasRoom e)

  room-Prepared :
      (e : Envp) → Fits e → length e.written ≤ total → Prepared e.written (room memory e)
  unfolding room proc_growenvp
  room-Prepared e (h, a, c) t = elim (Bool-cases (length e.written == e.envm)) [
    | inl full ↦ elim (Bool-cases (memory e.calls ((e.envm + 64) * 8))) [
      | inl given ↦ inr (
        record {
          written = e.written;
          envm = e.envm + 64;
          allocated = (e.envm + 64) * 8;
          calls = suc e.calls;
        },
        ground arith,
        refl,
        (ground arith, refl, omega arith),
      )
      | inr denied ↦ inl (
        ground arith,
        (e.calls, (e.envm + 64) * 8, omega arith, grows e.envm (ground arith), denied),
      )
    ]
    | inr spare ↦ inr (e, ground arith, refl, (ground arith, a, omega arith))
  ]

  -- An assignment is written behind the others, or there is no memory.
  abbrev Added : List Pointer → Outcome (Option Envp) → Type 0
  Added ps o = ((o ≡ ok none) × Lost) ⊎ ((e : Envp) × (o ≡ ok (some e)) × (e.written ≡ ps) × Fits e)

  abbrev IsText : List ℕ × List ℕ → Type 0
  IsText v = Size (length v.0 + length v.1 + 3)

  put_assignment-Added :
      (name value : List ℕ) (e : Envp)
      → HasRoom e
      → IsText (name, value)
      → length e.written < total
      → Added
          (e.written ++ (some (assignment name value) ∷ []))
          (put_assignment memory name value e)
  unfolding put_assignment put
  put_assignment-Added name value e (h, a, c) text t =
      elim (Bool-cases (memory e.calls (length name + length value + 3))) [
        | inl given ↦
            let more = length-append e.written (some (assignment name value) ∷ []) in
            inr (
              record e {
                written = e.written ++ (some (assignment name value) ∷ []);
                calls = suc e.calls;
              },
              rw
                  (
                    given,
                    sized name value,
                    lt→ltb (length e.written) (room_for e.allocated) (omega arith),
                  )
                  refl,
              refl,
              (omega (arith, more), a, omega (arith, more)),
            )
        | inr denied ↦
            inl (ground arith, (e.calls, length name + length value + 3, omega arith, text, denied))
      ]

  envp_loop-Prepared :
      (vars : List (List ℕ × List ℕ)) (e : Envp)
      → Fits e
      → All IsText vars
      → length e.written + length vars ≡ total
      → (o : Option Envp) × (envp_loop memory (strings vars) (some e) ≡ ok o)
        × Prepared (e.written ++ assignments vars) o
  unfolding envp_loop add_variable
  envp_loop-Prepared [] e h texts t = (
    room memory e,
    refl,
    subst (λ ps. Prepared ps (room memory e)) (sym (append-nil e.written))
        (room-Prepared e h (omega arith)),
  )
  envp_loop-Prepared ((name, value) ∷ vars) e h (text, texts) t =
      let rest = envp_loop memory (strings vars) in
      let after = λ (o : Option Envp). add_variable memory (some name) (some value) o >>= rest in
      let bound = λ (m : Outcome (Option Envp)). m >>= rest in
      elim (room-Prepared e h (omega arith)) [
        | inl (no_memory, d) ↦ (none, ap after no_memory, inl (refl, d))
        | inr (e1, r, w, f) ↦
            elim (put_assignment-Added name value e1 f text (omega (arith, ap length w))) [
              | inl (no_memory, d) ↦ (none, ap after r ∙ ap bound no_memory, inl (refl, d))
              | inr (e2, p, w2, h2) ↦
                  let written = w2 ∙ ap (λ ps. ps ++ (some (assignment name value) ∷ [])) w in
                  let count =
                    ap length written
                    ∙ length-append e.written (some (assignment name value) ∷ []) in
                  let (o, q, m) = envp_loop-Prepared vars e2 h2 texts (omega (arith, count)) in
                  let texts_eq =
                    ap (λ ps. ps ++ assignments vars) written
                    ∙ append_assoc e.written (some (assignment name value) ∷ [])
                        (assignments vars) in
                  (o, ap after r ∙ ap bound p ∙ q, subst (λ ps. Prepared ps o) texts_eq m)
            ]
      ]

  filled_envp_lem :
      (vars : List (List ℕ × List ℕ))
      → All IsText vars
      → length vars ≡ total
      → ((filled_envp memory (strings vars) 1 ≡ ok none) × Lost)
        ⊎ (filled_envp memory (strings vars) 1 ≡ ok (some (assignments vars ++ (none ∷ []))))
  unfolding filled_envp terminated_envp put
  filled_envp_lem vars texts t =
      let (o, q, m) =
        envp_loop-Prepared vars (record { written = []; envm = 0; allocated = 0; calls = 1 })
          (omega arith, refl, omega arith) texts (omega arith) in
      elim m [
        | inl (no_memory, d) ↦ inl (rw (q, no_memory) refl, d)
        | inr (e, s, w, (f, a, c)) ↦ inr (
            rw (q, s, lt→ltb (length e.written) (room_for e.allocated) (omega arith))
              (ap (λ ps. ok (some (ps ++ (none ∷ [])))) w))
      ]

-- What the call asks for, in bytes: the array of the arguments, the array of the environment for some
-- count of variables, which grows by 64 pointers, and the text of a variable.
pub data Request (args : List Pointer) (vars : List (List ℕ × List ℕ)) : ℕ → Type 0 where
  arguments : Request args vars ((length args + 2) * 8)
  environment : (n : ℕ) → n ≤ length vars → Request args vars ((n + 64) * 8)
  text :
      (before after : List (List ℕ × List ℕ)) (name value : List ℕ)
      → vars ≡ before ++ ((name, value) ∷ after)
      → Request args vars (length name + length value + 3)

-- One of the call's requests, by its number among them and its size, is not granted.
pub record Denied (memory : ℕ → ℕ → Bool) (args : List Pointer) (vars : List (List ℕ × List ℕ))
    : Type 0 where
  pub call : ℕ
  pub size : ℕ
  pub counted : call ≤ 1 + 2 * length vars
  pub asked : Request args vars size
  pub refused : memory call size ≡ false

texts_of :
    (args : List Pointer) (all before vars : List (List ℕ × List ℕ))
    → all ≡ before ++ vars
    → All (λ (v : List ℕ × List ℕ). Request args all (length v.0 + length v.1 + 3)) vars
texts_of args all before [] e = tt
texts_of args all before ((name, value) ∷ vars) e = (
  text before vars name value e,
  texts_of args all (before ++ ((name, value) ∷ [])) vars
      (e ∙ sym (append_assoc before ((name, value) ∷ []) vars)),
)

-- A call with a table of strings as the environment, whatever memory the system grants: either one of
-- the requests that the call makes is denied and it ends with ENOMEM, or the program gets its base name,
-- the arguments and NULL, every cell written, and each variable as `name=value` in the order of the
-- table, then NULL. In both cases each pointer is written inside the bytes that were allocated for its array.
pub exec-arrays :
    (memory : ℕ → ℕ → Bool) (basename : List ℕ → List ℕ) (environ : List Pointer) (binary : List ℕ)
    (args : List Pointer) (vars : List (List ℕ × List ℕ))
    → let result = proclua_exec memory basename environ binary args (some (strings vars)) in
      ((result ≡ ok none) × Denied memory args vars)
      ⊎ (result
          ≡ ok (
              some (
                map some (some (basename binary) ∷ (args ++ (none ∷ []))),
                assignments vars ++ (none ∷ []),
              )))
unfolding proclua_exec given argv_size
exec-arrays memory basename environ binary args vars =
    elim (Bool-cases (memory 0 ((length args + 2) * 8))) [
      | inr denied ↦ inl (
        rw denied refl,
        record {
          call = 0;
          size = (length args + 2) * 8;
          counted = omega arith;
          asked = arguments;
          refused = denied;
        },
      )
      | inl granted ↦
          elim (filled_envp_lem memory (Request args vars) (length vars) environment vars
            (texts_of args vars [] vars refl) refl) [
              | inl (no_memory, (k, size, c, q, d)) ↦ inl (
                rw (granted, filled_argv_lem (basename binary) args, no_memory) refl,
                record { call = k; size = size; counted = c; asked = q; refused = d },
              )
              | inr filled ↦ inr (rw (granted, filled_argv_lem (basename binary) args, filled) refl)
            ]
    ]
