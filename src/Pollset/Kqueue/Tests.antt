-- ===== src/Pollset/Kqueue/Tests.antt =====
-- The theorems about sets on kqueue at examples.
use lua_conmanorg.Pollset.Kqueue.{
  Kevent, Kqueue, got, evfilt_read, PollSet, pollset_lua, polllua_wait, waited, polllua_events,
}
use lua_conmanorg.Pollset.Kqueue.Iterator.{event_of, wait-events_kqueue}
use lua_conmanorg.Prelude.{ℕ, ◌≡◌, refl, [], ◌∷◌, map, false, none, ok, arith}

abbrev ready : Kevent
ready = record { ident = 7; filter = evfilt_read; flags = 0; filter_data = 1 }

-- A queue that takes all and always has one event.
abbrev queue : Kqueue ℕ
queue = record { change = λ k a b. (k, none); await = λ k room. (k, got (ready ∷ [])) }

abbrev one : PollSet ℕ
one = record (pollset_lua 5) { idx = 1 }

wait-events_kqueue_example :
    let r = polllua_wait queue one none in
    (r.0 ≡ waited false) × (polllua_events 2 r.1 ≡ ok (map (event_of one.uservalue) (ready ∷ [])))
unfolding pollset_lua
wait-events_kqueue_example =
    wait-events_kqueue queue one 5 (ready ∷ []) 2 (omega arith) refl (omega arith)
