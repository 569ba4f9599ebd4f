-- ===== src/Pollset/Poll/Invariant.antt =====
-- What holds of a set of src/pollset.c on poll() after any calls.
use lua_conmanorg.Pollset.Poll.{
  PollFd, Value, PollSet, System, Room, error, room, pollset_lua, settable, obj_or_fd, new_max,
  grown, make_room, place, insert_in, polllua_insert, updated, polllua_update, removed,
  polllua_remove, Polled, failed, ready, polllua_wait, pollset_next,
}
use lua_conmanorg.Pollset.Poll.Elements.{
  has_fd, Distinct, Updated, there, update_loop-Updated, Removed, taken, remove_loop-Removed,
  has_fd-append, Distinct-new, length-write_revents, has_fd-write_revents, Distinct-write_revents,
}
use lua_conmanorg.Pollset.Events.{pollset_toevents}
use lua_conmanorg.Prelude.{
  or_true, or_false, ℕ, ◌+◌, ◌<◌, ◌≤◌, lt→ltb, ◌==◌, Bool, true, false, not, ◌||◌, ◌&&◌,
  if◌then◌else◌, Option, none, some, List, [], ◌∷◌, ◌++◌, length, length-append, Outcome, ok, stop,
  Bool-cases, ◌≡◌, inl, inr, refl, sym, ap, subst, ◌∙◌, arith,
}

unfoldable pub is_some : Option Value → Bool
is_some none = false
is_some (some v) = true

-- `idx` counts the elements, which fit the array; no descriptor occurs twice; and the user value has
-- an object for the descriptors of the elements, and no other.
pub record WellFormed (s : PollSet) : Type 0 where
  pub size : s.idx ≡ length s.set
  pub fits : s.idx ≤ s.max
  pub distinct : Distinct s.set
  pub objects : (k : ℕ) → is_some (s.uservalue k) ≡ has_fd s.set k

new_set-WellFormed : (count : ℕ) → WellFormed (pollset_lua count)
unfolding pollset_lua is_some has_fd Distinct
new_set-WellFormed count = record {
  size = refl;
  fits = omega arith;
  distinct = tt;
  objects = λ k. refl;
}

-- The room that is made is enough, unless the limit has been lowered.
EnoughRoom : PollSet → Room → Type 0
EnoughRoom s (error e) = Unit {0}
EnoughRoom s (room max) = s.idx < max

room_is_enough :
    (system : System) (s : PollSet) (limit : ℕ)
    → s.idx ≤ s.max
    → system.getrlimit ≡ ok limit
    → s.max ≤ limit
    → EnoughRoom s (make_room system s)
unfolding make_room EnoughRoom grown new_max
room_is_enough system s limit h e l = elim (Bool-cases (s.idx == s.max)) [
  | inr less ↦ rw less (ground arith)
  | inl full ↦ rw full (
      rw e (elim (Bool-cases (s.max == limit)) [
        | inl all ↦ rw all tt
        | inr some_left ↦ rw some_left (elim (Bool-cases system.has_memory) [
          | inr nothing ↦ rw nothing tt
          | inl enough ↦ rw enough (ground arith)
        ])
      ]))
]

-- One call, and the set before and after it. A descriptor is inserted once, and the limit on open
-- files is at least the size of the array.
pub data Step : PollSet → PollSet → Type 0 where
  insert :
      {s s' : PollSet} (system : System) (fh limit e : ℕ) (flags : List ℕ) (obj : Option Value)
      → has_fd s.set fh ≡ false
      → system.getrlimit ≡ ok limit
      → s.max ≤ limit
      → polllua_insert system s (some fh) flags obj ≡ ok (e, s')
      → Step s s'
  update : {s : PollSet} (tofd : Option ℕ) (flags : List ℕ) → Step s (polllua_update s tofd flags).1
  remove : {s : PollSet} (tofd : Option ℕ) → Step s (polllua_remove s tofd).1
  wait : {s : PollSet} (polled : Polled) → Step s (polllua_wait s polled).1
  next : {s : PollSet} → Step s (pollset_next s).1

pub data Reachable : PollSet → Type 0 where
  new : (count : ℕ) → Reachable (pollset_lua count)
  step : {s s' : PollSet} → Reachable s → Step s s' → Reachable s'

with_new :
    (s : PollSet) (fh : ℕ) (obj : Option Value) (k : ℕ)
    → is_some (s.uservalue k) ≡ has_fd s.set k
    → is_some (settable s.uservalue fh (some (obj_or_fd fh obj)) k)
      ≡ (has_fd s.set k || ((fh == k) || false))
unfolding settable is_some
with_new s fh obj k e = elim (Bool-cases (k == fh)) [
  | inl same ↦
      let turned : (fh == k) ≡ true = ground arith in
      rw same (rw turned (sym (or_true (has_fd s.set k))))
  | inr other ↦
      let turned : (fh == k) ≡ false = ground arith in
      rw other (rw turned (e ∙ or_false (has_fd s.set k)))
]

inserted-WellFormed :
    (s : PollSet) (stale fh : ℕ) (flags : List ℕ) (obj : Option Value) (r : Room)
    → WellFormed s
    → has_fd s.set fh ≡ false
    → EnoughRoom s r
    → (e : ℕ) × (s' : PollSet) × (insert_in s stale fh flags obj r ≡ ok (e, s')) × WellFormed s'
unfolding insert_in place EnoughRoom has_fd
inserted-WellFormed s stale fh flags obj (error e) w h enough = (e, s, refl, w)
inserted-WellFormed s stale fh flags obj (room max) w h enough =
    let new : PollFd = record { fd = fh; events = pollset_toevents flags; revents = stale } in
    (
      0,
      record {
        set = s.set ++ (new ∷ []);
        idx = s.idx + 1;
        max = max;
        count = s.count;
        uservalue = settable s.uservalue fh (some (obj_or_fd fh obj));
      },
      rw (lt→ltb s.idx max enough) refl,
      record {
        size = omega (arith, w.size, length-append s.set (new ∷ []));
        fits = omega arith;
        distinct = Distinct-new s.set new w.distinct h;
        objects = λ k. with_new s fh obj k (w.objects k) ∙ sym (has_fd-append s.set (new ∷ []) k);
      },
    )

updated-WellFormed :
    (s : PollSet) (fh : ℕ) (o : Option (List PollFd))
    → WellFormed s
    → Updated s.set fh o
    → WellFormed (updated s o).1
unfolding updated
updated-WellFormed s fh none w u = w
updated-WellFormed s fh (some set) w (there h l m d) = record {
  size = w.size ∙ sym l;
  fits = w.fits;
  distinct = d w.distinct;
  objects = λ k. w.objects k ∙ sym (m k);
}

removed-WellFormed :
    (s : PollSet) (fh : ℕ) (o : Option (List PollFd))
    → WellFormed s
    → Removed s.set fh o
    → WellFormed (removed s fh o).1
unfolding removed settable is_some
removed-WellFormed s fh none w u = w
removed-WellFormed s fh (some set) w (taken h l m d) = record {
  size = omega (arith, w.size);
  fits = omega (arith, w.fits);
  distinct = d w.distinct;
  objects = λ k. without k (k == fh) (w.objects k) (m w.distinct k);
}
  where
    without :
        (k : ℕ) (b : Bool)
        → is_some (s.uservalue k) ≡ has_fd s.set k
        → has_fd set k ≡ (has_fd s.set k && not b)
        → is_some (if b then none else s.uservalue k) ≡ has_fd set k
    without k true e f = ground (arith, f)
    without k false e f = ground (arith, e, f)

-- Where the descriptor is new and the limit on open files is not below the size of the array,
-- `insert` gives an error number and a well-formed set: it never writes behind the end of the array.
insert-WellFormed :
    (system : System) (s : PollSet) (fh limit : ℕ) (flags : List ℕ) (obj : Option Value)
    → WellFormed s
    → has_fd s.set fh ≡ false
    → system.getrlimit ≡ ok limit
    → s.max ≤ limit
    → (e : ℕ) × (s' : PollSet) × (polllua_insert system s (some fh) flags obj ≡ ok (e, s'))
      × WellFormed s'
unfolding polllua_insert
insert-WellFormed system s fh limit flags obj w h e l =
    inserted-WellFormed s system.stale fh flags obj (make_room system s) w h
      (room_is_enough system s limit w.fits e l)

result : PollSet → Outcome (ℕ × PollSet) → PollSet
result s (ok r) = r.1
result s (stop e) = s

Step-WellFormed : {s s' : PollSet} → WellFormed s → Step s s' → WellFormed s'
unfolding polllua_update polllua_remove polllua_wait pollset_next result
Step-WellFormed {s = s} w (insert system fh limit e flags obj h r l done) =
    let inserted = insert-WellFormed system s fh limit flags obj w h r l in
    subst WellFormed (ap (result s) (sym inserted.2 ∙ done)) inserted.3
Step-WellFormed w (update none flags) = w
Step-WellFormed {s = s} w (update (some fh) flags) =
    updated-WellFormed s fh _ w (update_loop-Updated s.set fh (pollset_toevents flags))
Step-WellFormed w (remove none) = w
Step-WellFormed {s = s} w (remove (some fh)) =
    removed-WellFormed s fh _ w (remove_loop-Removed s.set fh)
Step-WellFormed w (wait (failed e)) = record {
  size = w.size;
  fits = w.fits;
  distinct = w.distinct;
  objects = w.objects;
}
Step-WellFormed {s = s} w (wait (ready revents)) = record {
  size = w.size ∙ sym (length-write_revents s.set revents);
  fits = w.fits;
  distinct = Distinct-write_revents s.set revents w.distinct;
  objects = λ k. w.objects k ∙ sym (has_fd-write_revents s.set revents k);
}
Step-WellFormed w next = record {
  size = w.size;
  fits = w.fits;
  distinct = w.distinct;
  objects = w.objects;
}

-- Every set that calls of `insert`, `update`, `remove`, `wait` and the iterator make from a new one is
-- well-formed, where a descriptor is inserted only when it is not in the set, and the limit on open
-- files is never below the size of the array.
pub Reachable-WellFormed : {s : PollSet} → Reachable s → WellFormed s
Reachable-WellFormed (new count) = new_set-WellFormed count
Reachable-WellFormed (step r t) = Step-WellFormed (Reachable-WellFormed r) t
