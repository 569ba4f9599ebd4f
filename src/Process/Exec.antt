-- ===== src/Process/Exec.antt =====
-- `proclua_exec` of src/process.c: the arrays that a new program is given. The memory that malloc()
-- and realloc() give is a parameter, by the number of the call and its size, and so is `basename`.
pub mod Arrays
use lua_conmanorg.Prelude.{
  ℕ, zero, suc, ◌/◌, ◌+◌, ◌*◌, ltb, leb, ◌==◌, Bool, true, false, if◌then◌else◌, List, [], ◌∷◌,
  ◌++◌, length, set, Option, none, some, map, Outcome, ok, stop, undefined, ◌>>=◌,
}

-- A pointer to a string, or NULL.
abbrev pub Pointer : Type 0
Pointer = Option (List ℕ)

-- `sizeof(char *)`, and the pointers that there is room for in `size` bytes.
abbrev pub pointer_size : ℕ
pointer_size = 8

abbrev pub room_for : ℕ → ℕ
room_for size = size / pointer_size

-- An array of `n` cells; one that was not written yet is `none`.
unfoldable pub blank_array : ℕ → List (Option Pointer)
blank_array zero = []
blank_array (suc n) = none ∷ blank_array n

-- `argv[i] = p`, which has to be inside the array.
unfoldable pub put_arg : ℕ → Pointer → List (Option Pointer) → Outcome (List (Option Pointer))
put_arg i p argv = if ltb i (length argv) then ok (set argv i (some p)) else stop undefined

unfoldable pub argv_loop :
    List Pointer → ℕ → List (Option Pointer) → Outcome (List (Option Pointer))
argv_loop [] i argv = put_arg i none argv
argv_loop (arg ∷ args) i argv = put_arg i arg argv >>= argv_loop args (suc i)

-- What malloc() is asked for; `argc` is two more than there are arguments.
unfoldable pub argv_size : List Pointer → ℕ
argv_size args = (length args + 2) * pointer_size

unfoldable pub filled_argv : List ℕ → List Pointer → Outcome (List (Option Pointer))
filled_argv name args =
    put_arg 0 (some name) (blank_array (room_for (argv_size args))) >>= argv_loop args 1

-- `written` is what `envp` has up to `envc`; `allocated` is the size in bytes of the memory behind
-- `envp`, and `calls` counts the calls for memory.
pub record Envp : Type 0 where
  pub written : List Pointer
  pub envm : ℕ
  pub allocated : ℕ
  pub calls : ℕ

-- What sprintf() puts for `%s`, up to the NUL.
unfoldable pub c_string : List ℕ → List ℕ
c_string [] = []
c_string (c ∷ text) = let rest = c_string text in if c == 0 then [] else c ∷ rest

abbrev pub assignment : List ℕ → List ℕ → List ℕ
assignment name value = c_string name ++ (b'=' ∷ c_string value)

module _ (memory : ℕ → ℕ → Bool) where
  -- `none` is the end with ENOMEM.
  unfoldable pub proc_growenvp : Envp → Option Envp
  proc_growenvp e =
      let nsize = e.envm + 64 in
      let size = nsize * pointer_size in
      if memory e.calls size
      then some
          (record { written = e.written; envm = nsize; allocated = size; calls = suc e.calls })
      else none

  unfoldable pub room : Envp → Option Envp
  room e = let grown = proc_growenvp e in if length e.written == e.envm then grown else some e

  -- `envp[envc++] = p`, which has to be inside the memory behind `envp`.
  unfoldable pub put : Pointer → Envp → Outcome Envp
  put p e =
      if ltb (length e.written) (room_for e.allocated)
      then ok (record e { written = e.written ++ (p ∷ []) })
      else stop undefined

  -- The text and its NUL have to fit into the memory.
  unfoldable pub put_assignment : List ℕ → List ℕ → Envp → Outcome (Option Envp)
  put_assignment name value e =
      let size = length name + length value + 3 in
      if memory e.calls size
      then (if leb (suc (length (assignment name value))) size
          then (put (some (assignment name value)) (record e { calls = suc e.calls }) >>= λ e2.
              ok (some e2))
          else stop undefined)
      else ok none

  -- `%s` of NULL is undefined.
  unfoldable pub add_variable : Pointer → Pointer → Option Envp → Outcome (Option Envp)
  add_variable name value none = ok none
  add_variable (some name) (some value) (some e) = put_assignment name value e
  add_variable none value (some e) = stop undefined
  add_variable (some name) none (some e) = stop undefined

  -- The pairs in the order in which lua_next() gives them.
  unfoldable pub envp_loop : List (Pointer × Pointer) → Option Envp → Outcome (Option Envp)
  envp_loop pairs none = ok none
  envp_loop [] (some e) = ok (room e)
  envp_loop ((name, value) ∷ pairs) (some e) = add_variable name value (room e) >>= envp_loop pairs

  unfoldable pub terminated_envp : Option Envp → Outcome (Option (List Pointer))
  terminated_envp none = ok none
  terminated_envp (some e) = put none e >>= λ e2. ok (some e2.written)

  unfoldable pub filled_envp : List (Pointer × Pointer) → ℕ → Outcome (Option (List Pointer))
  filled_envp pairs calls =
      envp_loop pairs (some (record { written = []; envm = 0; allocated = 0; calls = calls }))
      >>= terminated_envp

  -- What execve() is called with; `none` is ENOMEM. Without a table the program gets `environ`.
  unfoldable pub given :
      List (Option Pointer) → Option (List Pointer) → Option (List (Option Pointer) × List Pointer)
  given argv none = none
  given argv (some envp) = some (argv, envp)

  unfoldable pub proclua_exec :
      (List ℕ → List ℕ)
      → List Pointer
      → List ℕ
      → List Pointer
      → Option (List (Pointer × Pointer))
      → Outcome (Option (List (Option Pointer) × List Pointer))
  proclua_exec basename environ binary args none =
      if memory 0 (argv_size args)
      then (filled_argv (basename binary) args >>= λ argv. ok (some (argv, environ)))
      else ok none
  proclua_exec basename environ binary args (some pairs) =
      if memory 0 (argv_size args)
      then (filled_argv (basename binary) args >>= λ argv.
          filled_envp pairs 1 >>= λ envp. ok (given argv envp))
      else ok none
