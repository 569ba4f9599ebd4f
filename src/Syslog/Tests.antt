-- ===== src/Syslog/Tests.antt =====
-- The theorem about src/syslog.c at an example.
use lua_conmanorg.Bsearch.{bsearch_by, first_equal, is_partitioned, bsearch, strcmp}
use lua_conmanorg.Bsearch.Lookup.{lookup}
use lua_conmanorg.Syslog.{
  with_option, options_loop, options_of, m_facilities, m_levels, Log, openlog, syslog, valid,
  syslog_open, syslog_log,
}
use lua_conmanorg.Syslog.Calls.{flags_named, syslog-lookup}
use lua_conmanorg.Prelude.{
  ℕ, ◌≡◌, refl, List, [], ◌∷◌, Option, none, some, codes, ok, stop, lua_error, Outcome,
}

abbrev log : Log
log = record { ident = none; asked = [] }

abbrev flags : Option (List (List ℕ))
flags = some (codes "pid" ∷ codes "cons" ∷ codes "none" ∷ [])

opens :
    syslog_open log (codes "prog") (codes "local1") flags
    ≡ ok (record { ident = some (codes "prog"); asked = openlog (codes "prog") 3 136 ∷ [] })
unfolding syslog_open bsearch is_partitioned first_equal strcmp valid options_of options_loop
    with_option bsearch_by
opens = refl

syslog-lookup_example :
    (syslog_open log (codes "prog") (codes "local1") flags
      ≡ elim (lookup (codes "local1") m_facilities) as (λ _. Outcome Log) [
        | none ↦ stop (lua_error "invalid facility '%s'" (codes "local1"))
        | some e ↦ ok (record {
          ident = some (codes "prog");
          asked = openlog (codes "prog") (flags_named flags) e.value ∷ [];
        })
      ])
    × (syslog_log log (codes "hot") (ok (codes "text"))
        ≡ elim (lookup (codes "hot") m_levels) as (λ _. Outcome Log) [
          | none ↦ stop (lua_error "invalid level '%s'" (codes "hot"))
          | some e ↦ ok (record log { asked = syslog e.value (codes "text") ∷ [] })
        ])
syslog-lookup_example =
    syslog-lookup log (codes "prog") (codes "local1") (codes "hot") flags (codes "text")
