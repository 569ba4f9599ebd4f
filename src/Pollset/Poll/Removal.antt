-- ===== src/Pollset/Poll/Removal.antt =====
-- Inserting and removing a descriptor in a set of src/pollset.c on poll().
use lua_conmanorg.Pollset.Poll.{
  PollFd, Value, PollSet, System, Room, error, room, settable, obj_or_fd, new_max, grown, make_room,
  place, insert_in, polllua_insert, remove_loop, removed, polllua_remove, next_loop, pollset_next,
}
use lua_conmanorg.Pollset.Poll.Elements.{has_fd}
use lua_conmanorg.Pollset.Events.{pollset_toevents, pollset_pushevents}
use lua_conmanorg.Prelude.{
  ℕ, ◌+◌, ◌-◌, ◌<◌, ltb, ◌==◌, Bool, true, false, if◌then◌else◌, Option, none, some, List, [], ◌∷◌,
  ◌++◌, Outcome, ok, stop, undefined, Bool-cases, ◌≡◌, ◌≢◌, inl, inr, refl, sym, ap, subst, ◌∙◌,
  arith,
}

remove_last :
    (xs : List PollFd) (p : PollFd)
    → has_fd xs p.fd ≡ false
    → remove_loop (xs ++ (p ∷ [])) p.fd ≡ some xs
unfolding remove_loop has_fd
remove_last [] p h = ground arith
remove_last (x ∷ xs) p h =
    let other : (x.fd == p.fd) ≡ false = ground arith in
    let rest : has_fd xs p.fd ≡ false = ground arith in rw other (rw (remove_last xs p rest) refl)

-- The error numbers of `insert` are not 0.
NotZero : Room → Type 0
NotZero (error e) = e ≢ 0
NotZero (room max) = Unit {0}

make_room-NotZero :
    (system : System) (s : PollSet) → system.errno ≢ 0 → NotZero (make_room system s)
unfolding make_room grown NotZero
make_room-NotZero system s h = elim (Bool-cases (s.idx == s.max)) [
  | inr less ↦ rw less tt
  | inl full ↦ rw full (by_limit system.getrlimit)
]
  where
    by_limit : (o : Outcome ℕ) → NotZero (grown system s.max o)
    by_limit (stop x) = h
    by_limit (ok limit) = elim (Bool-cases (s.max == limit)) [
      | inl all ↦ rw all (omega arith)
      | inr some_left ↦ rw some_left (elim (Bool-cases system.has_memory) [
        | inl enough ↦ rw enough tt
        | inr nothing ↦ rw nothing (omega arith)
      ])
    ]

-- The set is as before, but for the room and the object of the descriptor.
pub record AsBefore (s s' : PollSet) (fh : ℕ) : Type 0 where
  pub set : s'.set ≡ s.set
  pub idx : s'.idx ≡ s.idx
  pub objects : (k : ℕ) → s'.uservalue k ≡ settable s.uservalue fh none k

with_element : PollSet → ℕ → ℕ → ℕ → List ℕ → Option Value → PollSet
with_element s stale max fh flags obj = record {
  set = s.set ++ (record { fd = fh; events = pollset_toevents flags; revents = stale } ∷ []);
  idx = s.idx + 1;
  max = max;
  count = s.count;
  uservalue = settable s.uservalue fh (some (obj_or_fd fh obj));
}

remove_it :
    (s : PollSet) (stale max fh : ℕ) (flags : List ℕ) (obj : Option Value)
    → has_fd s.set fh ≡ false
    → (s'' : PollSet) × (polllua_remove (with_element s stale max fh flags obj) (some fh)
        ≡ (0, s''))
      × AsBefore s s'' fh
unfolding polllua_remove removed settable with_element
remove_it s stale max fh flags obj h =
    let element : PollFd = record { fd = fh; events = pollset_toevents flags; revents = stale } in
    (
      record (with_element s stale max fh flags obj) {
        set = s.set;
        idx = s.idx + 1 - 1;
        uservalue = settable (settable s.uservalue fh (some (obj_or_fd fh obj))) fh none;
      },
      rw (remove_last s.set element h) refl,
      record { set = refl; idx = omega arith; objects = λ k. twice k (k == fh) },
    )
  where
    twice :
        (k : ℕ) (b : Bool)
        → (if b then none else (if b then some (obj_or_fd fh obj) else s.uservalue k))
          ≡ (if b then none else s.uservalue k)
    twice k true = refl
    twice k false = refl

set_of : PollSet → Outcome (ℕ × PollSet) → PollSet
set_of s (ok r) = r.1
set_of s (stop x) = s

number_of : Outcome (ℕ × PollSet) → ℕ
number_of (ok r) = r.0
number_of (stop x) = 0

never : {x : ℕ × PollSet} → stop undefined ≢ ok x
never e = cc

-- A descriptor that is not in the set is inserted with no error, and then removed: the elements and
-- `idx` are as before, and so are the objects of all other descriptors.
remove-insert :
    (system : System) (s s' : PollSet) (fh : ℕ) (flags : List ℕ) (obj : Option Value)
    → has_fd s.set fh ≡ false
    → system.errno ≢ 0
    → polllua_insert system s (some fh) flags obj ≡ ok (0, s')
    → (s'' : PollSet) × (polllua_remove s' (some fh) ≡ (0, s'')) × AsBefore s s'' fh
unfolding polllua_insert insert_in place NotZero number_of set_of with_element
remove-insert system s s' fh flags obj h n e =
    go (make_room system s) (make_room-NotZero system s n) e
  where
    go :
        (r : Room)
        → NotZero r
        → insert_in s system.stale fh flags obj r ≡ ok (0, s')
        → (s'' : PollSet) × (polllua_remove s' (some fh) ≡ (0, s'')) × AsBefore s s'' fh
    go (error x) z d = absurd (z (ap number_of d))
    go (room max) z d = elim (Bool-cases (ltb s.idx max)) [
      | inl fits ↦
          let placed : insert_in s system.stale fh flags obj (room max)
              ≡ ok (0, with_element s system.stale max fh flags obj) =
            rw fits refl in
          subst (λ t. (s'' : PollSet) × (polllua_remove t (some fh) ≡ (0, s'')) × AsBefore s s'' fh)
            (ap (set_of s) (sym placed ∙ d)) (remove_it s system.stale max fh flags obj h)
      | inr over ↦
          let behind : insert_in s system.stale fh flags obj (room max) ≡ stop undefined =
            rw over refl in
          absurd (never (sym behind ∙ d))
    ]

-- The limit on open files is now less than the size of the full array: the array is made smaller, and
-- the new element is written behind its end.
insert_below_limit :
    (system : System) (s : PollSet) (fh limit : ℕ) (flags : List ℕ) (obj : Option Value)
    → s.idx ≡ s.max
    → system.getrlimit ≡ ok limit
    → limit < s.max
    → system.has_memory ≡ true
    → polllua_insert system s (some fh) flags obj ≡ stop undefined
unfolding polllua_insert insert_in place make_room grown new_max
insert_below_limit system s fh limit flags obj full e l m =
    let at_end : (s.idx == s.max) ≡ true = ground arith in
    let apart : (s.max == limit) ≡ false = ground arith in
    let less : ltb limit (s.max + 10) ≡ true = ground arith in
    let behind : ltb s.idx limit ≡ false = ground arith in
    rw at_end (rw e (rw apart (rw m (rw less (rw behind refl)))))

-- The loop removes the descriptor of the event that it has just seen: the element behind it, for which
-- there are events too, is skipped.
remove_skips :
    (p q : PollFd) (rest : List PollFd) (idx max : ℕ) (table : ℕ → Option Value)
    → p.revents ≢ 0
    → q.revents ≢ 0
    → let s : PollSet = record {
      set = p ∷ q ∷ rest;
      idx = idx;
      max = max;
      count = 0;
      uservalue = table;
    } in
      ((pollset_next s).0 ≡ some (pollset_pushevents p.revents, table p.fd))
      × ((pollset_next (polllua_remove (pollset_next s).1 (some p.fd)).1).0
          ≡ (next_loop (settable table p.fd none) rest 1).0)
unfolding pollset_next next_loop polllua_remove removed remove_loop
remove_skips p q rest idx max table a b =
    let busy : (p.revents == 0) ≡ false = ground arith in
    let it : (p.fd == p.fd) ≡ true = ground arith in (rw busy refl, rw busy (rw it refl))
