-- ===== src/Pollset/Tests.antt =====
-- The theorems about sets of descriptors at examples.
use lua_conmanorg.Pollset.Events.{pollset_toevents, toevents_loop, flag}
use lua_conmanorg.Pollset.Poll.{
  PollFd, object, PollSet, System, pollset_lua, settable, polllua_insert, ready, write_revents,
  waited, polllua_wait, polllua_events, insert_in, make_room, grown, new_max, place, obj_or_fd,
}
use lua_conmanorg.Pollset.Poll.Elements.{has_fd}
use lua_conmanorg.Pollset.Poll.Invariant.{
  WellFormed, Reachable, new, step, insert, Reachable-WellFormed,
}
use lua_conmanorg.Pollset.Poll.Reports.{reports, wait-events}
use lua_conmanorg.Prelude.{
  ℕ, ◌≤◌, ◌≡◌, ◌==◌, refl, true, false, none, some, List, [], ◌∷◌, length, replicate, ok, arith,
}

abbrev system : System
system = record { getrlimit = ok 1024; errno = 22; has_memory = true; stale = 0 }

abbrev flags : List ℕ
flags = b'r' ∷ []

abbrev one_set : PollSet
one_set = record {
  set = record { fd = 5; events = 1; revents = 0 } ∷ [];
  idx = 1;
  max = 10;
  count = 0;
  uservalue = settable (λ _. none) 5 (some (object 0));
}

new_set_has_none : has_fd (pollset_lua 0).set 5 ≡ false
unfolding has_fd pollset_lua
new_set_has_none = refl

inserted : polllua_insert system (pollset_lua 0) (some 5) flags (some (object 0)) ≡ ok (0, one_set)
unfolding polllua_insert insert_in make_room grown new_max place obj_or_fd pollset_lua
    pollset_toevents toevents_loop flag
inserted = refl

room_left : (pollset_lua 0).max ≤ 1024
unfolding pollset_lua
room_left = omega arith

one_set-Reachable : Reachable one_set
one_set-Reachable =
    step (new 0)
      (insert system 5 1024 0 flags (some (object 0)) new_set_has_none refl room_left inserted)

Reachable-WellFormed_example : WellFormed one_set
Reachable-WellFormed_example = Reachable-WellFormed one_set-Reachable

wait-events_example :
    (polllua_events 2 (polllua_wait one_set (ready (1 ∷ []))).1
      ≡ reports one_set.uservalue (write_revents one_set.set (1 ∷ [])))
    × ((polllua_wait one_set (ready (1 ∷ []))).0
        ≡ waited (length (reports one_set.uservalue (write_revents one_set.set (1 ∷ []))) == 0))
wait-events_example = wait-events one_set (1 ∷ []) 2 (omega arith)

abbrev low_limit : System
low_limit = record { getrlimit = ok 8; errno = 22; has_memory = true; stale = 0 }

abbrev full_set : PollSet
full_set = record {
  set = replicate 10 (record { fd = 5; events = 1; revents = 0 });
  idx = 10;
  max = 10;
  count = 0;
  uservalue = λ _. none;
}

abbrev busy : ℕ → PollFd
busy k = record { fd = k; events = 1; revents = 1 }

abbrev two_busy : PollSet
two_busy = record {
  set = busy 5 ∷ busy 6 ∷ [];
  idx = 2;
  max = 10;
  count = 0;
  uservalue = λ _. none;
}
