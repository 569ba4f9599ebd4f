-- ===== src/Pollset/Select/Tests.antt =====
-- The theorems about sets on select() at examples.
use lua_conmanorg.Pollset.Select.{
  toevent, pollset_toevents, insert_at, PollSet, no_fds, set_bit, pollset_lua, polllua_insert,
  polllua_wait, polllua_events, selected, inserted,
}
use lua_conmanorg.Pollset.Select.Bounded.{Bounded, new, step, insert, Reachable-Bounded}
use lua_conmanorg.Pollset.Select.Ready.{asked_events, wait-left_events}
use lua_conmanorg.Prelude.{◌+◌, ◌≡◌, refl, none, some, codes, pos, ok, arith}

abbrev nothing : PollSet
nothing = record {
  read = no_fds;
  write = no_fds;
  except = no_fds;
  sread = no_fds;
  swrite = no_fds;
  sexcept = no_fds;
  min = 0;
  max = 0;
  count = 0;
  idx = 0;
  uservalue = λ _. none;
}

abbrev one : PollSet
one = inserted (pollset_lua nothing) 3 (codes "rw") none

one_inserted : polllua_insert (pollset_lua nothing) (some (pos 3)) (codes "rw") none ≡ ok (0, one)
unfolding polllua_insert insert_at
one_inserted = refl

Reachable-Bounded_example : Bounded one
Reachable-Bounded_example =
    Reachable-Bounded (step (new nothing) (insert (some (pos 3)) (codes "rw") none 0 one_inserted))

wait-left_events_example :
    polllua_events 9 (polllua_wait one (selected 1 (set_bit no_fds 3) no_fds no_fds)).1
    ≡ asked_events one (set_bit no_fds 3) no_fds no_fds 0 (one.max + 1)
unfolding inserted pollset_lua pollset_toevents toevent
wait-left_events_example = wait-left_events one 1 (set_bit no_fds 3) no_fds no_fds 9 (omega arith)
