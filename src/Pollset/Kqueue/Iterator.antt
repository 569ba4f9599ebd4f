-- ===== src/Pollset/Kqueue/Iterator.antt =====
-- What a loop over the events of src/pollset.c on kqueue sees, and what an object is.
use lua_conmanorg.Pollset.Poll.{Value, integer, settable}
use lua_conmanorg.Pollset.Kqueue.{
  Kevent, got, Kqueue, pollset_toevents, pollset_pushevents, PollSet, Event, less_than, element,
  filters, obj_or_four, event_at, pollset_next, inserted, awaited, polllua_insert, polllua_wait,
  seen, with_memory, waited, polllua_events, ev_add,
}
use lua_conmanorg.Prelude.{
  ◌>>=◌, ℕ, zero, suc, ◌+◌, ◌<◌, ltb, lt→ltb, ◌==◌, ◌≡◌, refl, sym, ap, ◌∙◌, false, Option, none,
  some, List, [], ◌∷◌, map, drop, length, get_elem?, pos, ok, arith,
}

-- The event of an element, with the object of its descriptor.
unfoldable pub event_of : (ℕ → Option Value) → Kevent → Event
event_of table e = (pollset_pushevents e, table e.ident)

get_elem?-drop :
    {A : Type 0} (xs : List A) (c : ℕ) (x : A) (rest : List A)
    → drop c xs ≡ x ∷ rest
    → (get_elem? xs c ≡ some x) × (drop (suc c) xs ≡ rest) × (c < length xs)
get_elem?-drop [] zero x rest e = cc
get_elem?-drop [] (suc c) x rest e = cc
get_elem?-drop (y ∷ xs) zero x rest e = ground (arith, e)
get_elem?-drop (y ∷ xs) (suc c) x rest e =
    let later = get_elem?-drop xs c x rest e in (later.0, later.1, omega (arith, later.2))

drop_all : {A : Type 0} (xs : List A) (c : ℕ) → drop c xs ≡ [] → ltb c (length xs) ≡ false
drop_all [] zero e = refl
drop_all [] (suc c) e = ground arith
drop_all (y ∷ xs) zero e = cc
drop_all (y ∷ xs) (suc c) e = ground (arith, drop_all xs c e)

module _ {K : Type 0} where
  abbrev at : PollSet K → List Kevent → ℕ → PollSet K
  at s list c = record s { list = some list; max = pos (length list); count = c }

  next-at :
      (s : PollSet K) (list : List Kevent) (c : ℕ) (x : Kevent)
      → c < length list
      → get_elem? list c ≡ some x
      → pollset_next (at s list c) ≡ ok (some (event_of s.uservalue x), at s list (c + 1))
  unfolding pollset_next less_than element event_at event_of
  next-at s list c x h e = rw (lt→ltb c (length list) h) (rw e refl)

  next-end :
      (s : PollSet K) (list : List Kevent) (c : ℕ)
      → ltb c (length list) ≡ false
      → pollset_next (at s list c) ≡ ok (none, record (at s list c) { list = none })
  unfolding pollset_next less_than
  next-end s list c e = rw e refl

  events-drop :
      (s : PollSet K) (list rest : List Kevent) (c fuel : ℕ)
      → drop c list ≡ rest
      → length rest < fuel
      → polllua_events fuel (at s list c) ≡ ok (map (event_of s.uservalue) rest)
  unfolding polllua_events seen
  events-drop s list rest c zero e h = absurd (omega arith)
  events-drop s list [] c (suc fuel) e h =
      ap (seen (polllua_events fuel)) (next-end s list c (drop_all list c e))
  events-drop s list (x ∷ rest) c (suc fuel) e h =
      let next = get_elem?-drop list c x rest e in
      let one_more : suc c ≡ c + 1 = omega arith in
      ap (seen (polllua_events fuel)) (next-at s list c x next.2 next.0)
      ∙ ap (λ o. o >>= λ events. ok (event_of s.uservalue x ∷ events))
          (events-drop s list rest (c + 1) fuel (ap (λ n. drop n list) (sym one_more) ∙ next.1)
            (omega (arith, h)))

  -- After a wait on a set that is not empty, for which there is memory and the kernel stores events,
  -- a loop over the events ends without a read outside the list, and sees each event that was stored,
  -- once and in order, with the object of its descriptor.
  pub wait-events_kqueue :
      (queue : Kqueue K) (s : PollSet K) (k : K) (list : List Kevent) (fuel : ℕ)
      → 0 < s.idx
      → queue.await s.qfh s.idx ≡ (k, got list)
      → length list < fuel
      → let r = polllua_wait queue s none in
        (r.0 ≡ waited (length list == 0))
        × (polllua_events fuel r.1 ≡ ok (map (event_of s.uservalue) list))
  unfolding polllua_wait with_memory awaited
  wait-events_kqueue queue s k list fuel h e f =
      rw (lt→ltb 0 s.idx h)
        (rw e (refl, events-drop (record s { qfh = k }) list list 0 fuel refl f))

  -- Where `insert` is called without an object and the kernel takes the two filters, the object of
  -- the descriptor is the number 4, whatever the descriptor is; and the kernel is given the
  -- descriptor for a backlog.
  insert_gives_four :
      (queue : Kqueue K) (s : PollSet K) (fh : ℕ) (flags : List ℕ) (k : K)
      → let f = filters fh fh 0 (pollset_toevents flags ev_add) in
        queue.change s.qfh f.0 f.1 ≡ (k, none)
        → ((polllua_insert queue s (some fh) flags none).1.uservalue fh ≡ some (integer 4))
          × (f.0.filter_data ≡ fh)
  unfolding polllua_insert inserted obj_or_four settable filters
  insert_gives_four queue s fh flags k e = rw e (ground arith, refl)
