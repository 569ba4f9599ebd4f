-- ===== src/Signal/Names.antt =====
-- The names of signals and of flags in src/signal.c, for Linux: `sigs` and `tflags` with the numbers
-- of <signal.h> there.
pub mod Search
use Prim.Native.String.{String}
use lua_conmanorg.Bsearch.{Entry, row, bsearch}
use lua_conmanorg.Prelude.{
  ℕ, Bool, true, false, Option, none, some, List, [], ◌∷◌, codes, bit_or, Outcome, ok, stop,
  lua_error, undefined, ◌>>=◌,
}

abbrev pub sigs : List Entry
sigs =
    row "abort" 6
    ∷ row "abrt" 6
    ∷ row "alarm" 14
    ∷ row "alrm" 14
    ∷ row "breakpoint" 5
    ∷ row "bus" 7
    ∷ row "child" 17
    ∷ row "chld" 17
    ∷ row "cont" 18
    ∷ row "continue" 18
    ∷ row "copstackfault" 16
    ∷ row "cputime" 24
    ∷ row "filesize" 25
    ∷ row "fpe" 8
    ∷ row "hangup" 1
    ∷ row "hup" 1
    ∷ row "ill" 4
    ∷ row "illegal" 4
    ∷ row "int" 2
    ∷ row "interrupt" 2
    ∷ row "kill" 9
    ∷ row "pipe" 13
    ∷ row "poll" 29
    ∷ row "power" 30
    ∷ row "prof" 27
    ∷ row "profile" 27
    ∷ row "pwr" 30
    ∷ row "quit" 3
    ∷ row "segfault" 11
    ∷ row "segv" 11
    ∷ row "stkflt" 16
    ∷ row "stop" 19
    ∷ row "sys" 31
    ∷ row "term" 15
    ∷ row "terminate" 15
    ∷ row "trap" 5
    ∷ row "tstp" 20
    ∷ row "ttin" 21
    ∷ row "ttou" 22
    ∷ row "ttout" 22
    ∷ row "ttyin" 21
    ∷ row "ttyout" 22
    ∷ row "ttystop" 20
    ∷ row "urg" 23
    ∷ row "urgent" 23
    ∷ row "user1" 10
    ∷ row "user2" 12
    ∷ row "usr1" 10
    ∷ row "usr2" 12
    ∷ row "vtalarm" 26
    ∷ row "vtalrm" 26
    ∷ row "winch" 28
    ∷ row "windowchange" 28
    ∷ row "xcpu" 24
    ∷ row "xfsz" 25
    ∷ []

-- The entry of a name, of which the caller takes the value and sometimes the text.
unfoldable pub found_or_error : String → List ℕ → Option Entry → Outcome Entry
found_or_error message name none = stop (lua_error message name)
found_or_error message name (some e) = ok e

unfoldable pub slua_tosignal : List ℕ → Outcome Entry
slua_tosignal name = bsearch name sigs >>= found_or_error "signal '%s' not supported" name

abbrev pub is_found : Option Entry → Bool
is_found none = false
is_found (some e) = true

unfoldable pub siglua_defined : List ℕ → Outcome Bool
siglua_defined name = bsearch name sigs >>= λ o. ok (is_found o)

-- SA_SIGINFO, SA_NOCLDSTOP, SA_NODEFER and SA_NOMASK, SA_RESETHAND and SA_ONESHOT, SA_RESTART.
abbrev pub sa_siginfo : ℕ
sa_siginfo = 4

abbrev pub sa_nocldstop : ℕ
sa_nocldstop = 1

abbrev pub sa_nodefer : ℕ
sa_nodefer = 1073741824

abbrev pub sa_resethand : ℕ
sa_resethand = 2147483648

abbrev pub sa_restart : ℕ
sa_restart = 268435456

abbrev pub tflags : List Entry
tflags =
    row "info" sa_siginfo
    ∷ row "nochildstop" sa_nocldstop
    ∷ row "nodefer" sa_nodefer
    ∷ row "nomask" sa_nodefer
    ∷ row "oneshot" sa_resethand
    ∷ row "resethandler" sa_resethand
    ∷ row "restart" sa_restart
    ∷ []

-- The Lua value that may name flags: a string, an array whose elements are strings or are no strings,
-- or another value.
pub data FlagArg : Type 0 where
  nil : FlagArg
  text : List ℕ → FlagArg
  table : List (Option (List ℕ)) → FlagArg
  other : FlagArg

unfoldable pub flag : List ℕ → Outcome Entry
flag name = bsearch name tflags >>= found_or_error "flag '%s' not supported" name

-- strcmp() of a null pointer is undefined.
unfoldable pub flag_of : Option (List ℕ) → Outcome Entry
flag_of none = stop undefined
flag_of (some name) = flag name

unfoldable pub flags_loop : ℕ → List (Option (List ℕ)) → Outcome ℕ
flags_loop flags [] = ok flags
flags_loop flags (name ∷ rest) = flag_of name >>= λ e. flags_loop (bit_or flags e.value) rest

unfoldable pub slua_toflags : FlagArg → Outcome ℕ
slua_toflags nil = ok 0
slua_toflags (text name) = flag name >>= λ e. ok e.value
slua_toflags (table names) = flags_loop 0 names
slua_toflags other = stop (lua_error "wrong type" [])
