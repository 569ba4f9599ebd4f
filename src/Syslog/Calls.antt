-- ===== src/Syslog/Calls.antt =====
-- What src/syslog.c asks of the system.
use lua_conmanorg.Bsearch.{Entry, strcmp}
use lua_conmanorg.Bsearch.Order.{is_sorted}
use lua_conmanorg.Bsearch.Lookup.{lookup, bsearch-lookup}
use lua_conmanorg.Syslog.{
  m_facilities, m_levels, m_opts, Log, openlog, syslog, with_option, options_loop, options_of,
  valid, syslog_open, syslog_log,
}
use lua_conmanorg.Prelude.{
  ℕ, ◌≡◌, refl, true, List, [], ◌∷◌, Option, none, some, ok, ◌>>=◌, stop, lua_error, Outcome,
  bit_or,
}

facilities_sorted : is_sorted m_facilities ≡ true
unfolding strcmp
facilities_sorted = refl

levels_sorted : is_sorted m_levels ≡ true
unfolding strcmp
levels_sorted = refl

opts_sorted : is_sorted m_opts ≡ true
unfolding strcmp
opts_sorted = refl

-- The options by a look at every entry of the table: a name that no entry has adds nothing.
unfoldable pub options_named : ℕ → List (List ℕ) → ℕ
options_named options [] = options
options_named options (name ∷ rest) = elim (lookup name m_opts) as (λ _. ℕ) [
  | none ↦ options_named options rest
  | some e ↦ options_named (bit_or options e.value) rest
]

options_found :
    (options : ℕ) (rest : List (List ℕ)) (o : Option Entry)
    → ((n : ℕ) → options_loop n rest ≡ ok (options_named n rest))
    → options_loop (with_option options o) rest
      ≡ ok (elim o as (λ _. ℕ) [
        | none ↦ options_named options rest
        | some e ↦ options_named (bit_or options e.value) rest
      ])
unfolding with_option
options_found options rest none h = h options
options_found options rest (some e) h = h (bit_or options e.value)

options_loop-named :
    (names : List (List ℕ)) (options : ℕ)
    → options_loop options names ≡ ok (options_named options names)
unfolding options_loop options_named
options_loop-named [] options = refl
options_loop-named (name ∷ names) options =
    rw (bsearch-lookup name m_opts opts_sorted)
      (options_found options names (lookup name m_opts) (options_loop-named names))

abbrev pub flags_named : Option (List (List ℕ)) → ℕ
flags_named none = 0
flags_named (some names) = options_named 0 names

options_of-named : (flags : Option (List (List ℕ))) → options_of flags ≡ ok (flags_named flags)
unfolding options_of
options_of-named none = refl
options_of-named (some names) = options_loop-named names 0

opened :
    (log : Log) (ident name : List ℕ) (options : ℕ) (o : Option Entry)
    → (valid "invalid facility '%s'" name o >>= λ facility.
        ok (record { ident = some ident; asked = openlog ident options facility ∷ log.asked }))
      ≡ elim o as (λ _. Outcome Log) [
        | none ↦ stop (lua_error "invalid facility '%s'" name)
        | some e ↦
            ok (record { ident = some ident; asked = openlog ident options e.value ∷ log.asked })
      ]
unfolding valid
opened log ident name options none = refl
opened log ident name options (some e) = refl

written :
    (log : Log) (name message : List ℕ) (o : Option Entry)
    → (valid "invalid level '%s'" name o >>= λ level.
        ok (record log { asked = syslog level message ∷ log.asked }))
      ≡ elim o as (λ _. Outcome Log) [
        | none ↦ stop (lua_error "invalid level '%s'" name)
        | some e ↦ ok (record log { asked = syslog e.value message ∷ log.asked })
      ]
unfolding valid
written log name message none = refl
written log name message (some e) = refl

-- `syslog.open` and `syslog.log` look the names of the facility and of the level up among all entries
-- of their tables: the number of the entry goes to the system, with the options of all names that an entry
-- of their table has, and a name that no entry has raises an error.
pub syslog-lookup :
    (log : Log) (ident name level_name : List ℕ) (flags : Option (List (List ℕ))) (message : List ℕ)
    → (syslog_open log ident name flags ≡ elim (lookup name m_facilities) as (λ _. Outcome Log) [
      | none ↦ stop (lua_error "invalid facility '%s'" name)
      | some e ↦ ok (record {
        ident = some ident;
        asked = openlog ident (flags_named flags) e.value ∷ log.asked;
      })
    ])
      × (syslog_log log level_name (ok message)
          ≡ elim (lookup level_name m_levels) as (λ _. Outcome Log) [
            | none ↦ stop (lua_error "invalid level '%s'" level_name)
            | some e ↦ ok (record log { asked = syslog e.value message ∷ log.asked })
          ])
unfolding syslog_open syslog_log
syslog-lookup log ident name level_name flags message = (
  rw (bsearch-lookup name m_facilities facilities_sorted) (
      rw (options_of-named flags)
        (opened log ident name (flags_named flags) (lookup name m_facilities))),
  rw (bsearch-lookup level_name m_levels levels_sorted)
      (written log level_name message (lookup level_name m_levels)),
)
