-- ===== src/Syslog.antt =====
-- The module of src/syslog.c, on a system with LOG_PERROR.
pub mod Calls
mod Tests
use Prim.Native.String.{String}
use lua_conmanorg.Bsearch.{Entry, row, bsearch}
use lua_conmanorg.Prelude.{
  ℕ, ◌*◌, Bool, true, false, List, [], ◌∷◌, Option, none, some, bit_or, Outcome, ok, stop, Stop,
  lua_error, ◌>>=◌,
}

abbrev pub m_facilities : List Entry
m_facilities =
    row "auth" (4 * 8)
    ∷ row "auth2" (10 * 8)
    ∷ row "auth3" (13 * 8)
    ∷ row "auth4" (14 * 8)
    ∷ row "authpriv" (10 * 8)
    ∷ row "cron" (9 * 8)
    ∷ row "cron1" (9 * 8)
    ∷ row "cron2" (15 * 8)
    ∷ row "daemon" (3 * 8)
    ∷ row "ftp" (11 * 8)
    ∷ row "kernel" (0 * 8)
    ∷ row "local0" (16 * 8)
    ∷ row "local1" (17 * 8)
    ∷ row "local2" (18 * 8)
    ∷ row "local3" (19 * 8)
    ∷ row "local4" (20 * 8)
    ∷ row "local5" (21 * 8)
    ∷ row "local6" (22 * 8)
    ∷ row "local7" (23 * 8)
    ∷ row "lpr" (6 * 8)
    ∷ row "mail" (2 * 8)
    ∷ row "news" (7 * 8)
    ∷ row "ntp" (12 * 8)
    ∷ row "syslog" (5 * 8)
    ∷ row "user" (1 * 8)
    ∷ row "uucp" (8 * 8)
    ∷ []

abbrev pub m_levels : List Entry
m_levels =
    row "alert" 1
    ∷ row "crit" 2
    ∷ row "critical" 2
    ∷ row "debug" 7
    ∷ row "emerg" 0
    ∷ row "emergency" 0
    ∷ row "err" 3
    ∷ row "error" 3
    ∷ row "info" 6
    ∷ row "notice" 5
    ∷ row "warn" 4
    ∷ row "warning" 4
    ∷ []

-- The options of <syslog.h>: LOG_PID is 1, LOG_CONS 2, LOG_ODELAY 4, LOG_NDELAY 8, LOG_NOWAIT 16,
-- LOG_PERROR 32.
abbrev pub m_opts : List Entry
m_opts =
    row "cons" 2
    ∷ row "console" 2
    ∷ row "ndelay" 8
    ∷ row "nodelay" 8
    ∷ row "nowait" 16
    ∷ row "odelay" 4
    ∷ row "perror" 32
    ∷ row "pid" 1
    ∷ row "stderr" 32
    ∷ []

-- What the system was asked, with the values that it was given.
pub data Asked : Type 0 where
  openlog : List ℕ → ℕ → ℕ → Asked
  closelog : Asked
  syslog : ℕ → List ℕ → Asked

-- The string that the registry keeps for openlog(), and what was asked, the last one first.
pub record Log : Type 0 where
  pub ident : Option (List ℕ)
  pub asked : List Asked

unfoldable pub value_or : ℕ → Option Entry → ℕ
value_or other none = other
value_or other (some e) = e.value

-- An option of a name that is not in the table has no effect.
unfoldable pub with_option : ℕ → Option Entry → ℕ
with_option options none = options
with_option options (some e) = bit_or options e.value

unfoldable pub options_loop : ℕ → List (List ℕ) → Outcome ℕ
options_loop options [] = ok options
options_loop options (name ∷ rest) =
    bsearch name m_opts >>= λ o. options_loop (with_option options o) rest

-- The third argument is a table of names, or it is not a table.
unfoldable pub options_of : Option (List (List ℕ)) → Outcome ℕ
options_of none = ok 0
options_of (some names) = options_loop 0 names

unfoldable pub valid : String → List ℕ → Option Entry → Outcome ℕ
valid message name none = stop (lua_error message name)
valid message name (some e) = ok e.value

unfoldable pub syslog_open : Log → List ℕ → List ℕ → Option (List (List ℕ)) → Outcome Log
syslog_open log ident name flags =
    bsearch name m_facilities >>= valid "invalid facility '%s'" name >>= λ facility.
    options_of flags >>= λ options.
    ok (record { ident = some ident; asked = openlog ident options facility ∷ log.asked })

unfoldable pub syslog_close : Log → Log
syslog_close log = record { ident = none; asked = closelog ∷ log.asked }

-- `format` is string.format() of the format and the other arguments, which may raise an error.
unfoldable pub syslog_log : Log → List ℕ → Outcome (List ℕ) → Outcome Log
syslog_log log name format = bsearch name m_levels >>= valid "invalid level '%s'" name >>= λ level.
    format >>= λ message. ok (record log { asked = syslog level message ∷ log.asked })
