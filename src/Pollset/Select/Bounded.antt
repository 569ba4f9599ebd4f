-- ===== src/Pollset/Select/Bounded.antt =====
-- Which descriptors a set of src/pollset.c on select() watches.
use lua_conmanorg.Pollset.Poll.{Value}
use lua_conmanorg.Pollset.Select.{
  fd_setsize, set_bit, clear_bit, PollSet, toevent, pollset_toevents, pollset_next, pollset_lua,
  inserted, insert_at, polllua_insert, cleared, polllua_update, is_watched, removed, polllua_remove,
  Selected, failed, selected, polllua_wait,
}
use lua_conmanorg.Prelude.{
  undefined, ℕ, ◌<◌, ◌≤◌, ltb, ltb→lt, ◌==◌, ◌||◌, ◌≡◌, ap, subst, true, if◌then◌else◌, Option,
  none, some, List, [], ◌∷◌, ℤ, pos, negsuc, Outcome, ok, stop, ok_inj, Bool-cases, inl, inr, arith,
}

-- What is watched has a place in the sets, and is seen by the iterator.
abbrev pub Bounded : PollSet → Type 0
Bounded s = (k : ℕ) → is_watched s k ≡ true → (k ≤ s.max) × (k < fd_setsize)

toevent-watched :
    (c fd : ℕ) (s : PollSet)
    → ((k : ℕ) → is_watched (toevent c fd s) k ≡ true → ((k == fd) || is_watched s k) ≡ true)
      × ((toevent c fd s).max ≡ s.max)
unfolding toevent is_watched set_bit
toevent-watched c fd s = (λ k h. ground arith, ground arith)

toevents-Bounded :
    (flags : List ℕ) (fd : ℕ) (s : PollSet)
    → fd ≤ s.max
    → fd < fd_setsize
    → Bounded s
    → Bounded (pollset_toevents flags fd s)
unfolding pollset_toevents
toevents-Bounded [] fd s h p b = b
toevents-Bounded (c ∷ flags) fd s h p b =
    let t = toevent-watched c fd s in
    toevents-Bounded flags fd (toevent c fd s) (omega (arith, t.1)) p
      (λ k w. ground (arith, t.0 k w, t.1, b k))

inserted-Bounded :
    (s : PollSet) (fh : ℕ) (flags : List ℕ) (obj : Option Value)
    → fh < fd_setsize
    → Bounded s
    → Bounded (inserted s fh flags obj)
unfolding inserted is_watched
inserted-Bounded s fh flags obj h b =
    toevents-Bounded flags fh
      (record s {
        min = if ltb fh s.min then fh else s.min;
        max = if ltb s.max fh then fh else s.max;
      })
      (ground arith) h (λ k w. ground (arith, b k w))

cleared-Bounded : (s : PollSet) (fh : ℕ) → Bounded s → Bounded (cleared s fh)
unfolding cleared is_watched clear_bit
cleared-Bounded s fh b = λ k w. b k (ground arith)

-- One call, and the set before and after it: `update` is called for a descriptor that is at most the
-- greatest one inserted.
pub data Step : PollSet → PollSet → Type 0 where
  insert :
      {s s' : PollSet} (tofd : Option ℤ) (flags : List ℕ) (obj : Option Value) (e : ℕ)
      → polllua_insert s tofd flags obj ≡ ok (e, s')
      → Step s s'
  update :
      {s s' : PollSet} (fh : ℕ) (flags : List ℕ) (e : ℕ)
      → fh ≤ s.max
      → polllua_update s (some (pos fh)) flags ≡ ok (e, s')
      → Step s s'
  remove :
      {s s' : PollSet} (tofd : Option ℤ) (e : ℕ) → polllua_remove s tofd ≡ ok (e, s') → Step s s'
  wait : {s : PollSet} (r : Selected) → Step s (polllua_wait s r).1
  next : {s : PollSet} → Step s (pollset_next s).1

pub data Reachable : PollSet → Type 0 where
  new : (uninitialised : PollSet) → Reachable (pollset_lua uninitialised)
  step : {s s' : PollSet} → Reachable s → Step s s' → Reachable s'

-- The set of a result that is given only where the descriptor has a place.
in_place :
    {s' : PollSet} {e : ℕ} (t : PollSet) (n fh : ℕ)
    → if◌then◌else◌ {A = Outcome (ℕ × PollSet)} (ltb fh fd_setsize) (ok (n, t)) (stop undefined)
      ≡ ok (e, s')
    → (fh < fd_setsize → Bounded t)
    → Bounded s'
in_place t n fh e b = elim (Bool-cases (ltb fh fd_setsize)) [
  | inl place ↦
      subst Bounded (ap (λ p. p.1) (ok_inj (rw place at e))) (b (ltb→lt fh fd_setsize place))
  | inr no_place ↦ (let never = rw no_place at e in cc)
]

insert-Bounded :
    (s : PollSet) {s' : PollSet} (tofd : Option ℤ) (flags : List ℕ) (obj : Option Value) {e : ℕ}
    → Bounded s
    → polllua_insert s tofd flags obj ≡ ok (e, s')
    → Bounded s'
unfolding polllua_insert insert_at
insert-Bounded s none flags obj b e = subst Bounded (ap (λ p. p.1) (ok_inj e)) b
insert-Bounded s (some (negsuc n)) flags obj b e = cc
insert-Bounded s (some (pos fh)) flags obj b e = elim (Bool-cases (ltb fd_setsize fh)) [
  | inl big ↦ subst Bounded (ap (λ p. p.1) (ok_inj (rw big at e))) b
  | inr small ↦ in_place _ _ fh (rw small at e) (λ h. inserted-Bounded s fh flags obj h b)
]

new-Bounded : (uninitialised : PollSet) → Bounded (pollset_lua uninitialised)
unfolding pollset_lua is_watched
new-Bounded u = λ k w. cc

remove-Bounded :
    (s : PollSet) {s' : PollSet} (tofd : Option ℤ) {e : ℕ}
    → Bounded s
    → polllua_remove s tofd ≡ ok (e, s')
    → Bounded s'
unfolding polllua_remove removed is_watched
remove-Bounded s none b e = subst Bounded (ap (λ p. p.1) (ok_inj e)) b
remove-Bounded s (some (negsuc n)) b e = cc
remove-Bounded s (some (pos fh)) b e = elim (Bool-cases (is_watched s fh)) [
  | inl watched ↦ in_place _ _ fh (rw watched at e) (λ h. cleared-Bounded s fh b)
  | inr unwatched ↦ in_place _ _ fh (rw unwatched at e) (λ h. b)
]

Step-Bounded : {s s' : PollSet} → Bounded s → Step s s' → Bounded s'
unfolding polllua_update polllua_wait pollset_next is_watched cleared
Step-Bounded {s = s} b (insert tofd flags obj e p) = insert-Bounded s tofd flags obj b p
Step-Bounded {s = s} b (update fh flags e h p) =
    in_place _ _ fh p
      (λ place. toevents-Bounded flags fh (cleared s fh) h place (cleared-Bounded s fh b))
Step-Bounded {s = s} b (remove tofd e p) = remove-Bounded s tofd b p
Step-Bounded b (wait (failed e r w x)) = b
Step-Bounded b (wait (selected e r w x)) = b
Step-Bounded b next = b

-- In every set that calls of `insert`, `update`, `remove`, `wait` and the iterator make from a new one,
-- a descriptor that is watched has a place in the sets and is not greater than `max`, so that the
-- iterator comes to it; where `update` is called for descriptors that are not greater than `max`.
pub Reachable-Bounded : {s : PollSet} → Reachable s → Bounded s
Reachable-Bounded (new u) = new-Bounded u
Reachable-Bounded (step r t) = Step-Bounded (Reachable-Bounded r) t
