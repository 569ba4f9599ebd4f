-- ===== src/Pollset/Epoll/Invariant.antt =====
-- What holds of a set of src/pollset.c on epoll after any calls.
use lua_conmanorg.Pollset.Poll.{Value}
use lua_conmanorg.Pollset.Poll.Invariant.{is_some}
use lua_conmanorg.Pollset.Epoll.Kernel.{
  Ready, ctl_add, ctl_del, Awaited, wait_failed, got, Epoll, has, Documented,
}
use lua_conmanorg.Pollset.Epoll.{
  PollSet, Event, event_of, list_at, less_than, pollset_next, pollset_lua, added, polllua_insert,
  modified, polllua_update, deleted, polllua_remove, Waited, wait_error, awaited, polllua_wait,
  pollset_toevents,
}
use lua_conmanorg.Pollset.Epoll.Members.{
  Distinct, Listed, WellFormed, length-without, has-without, Distinct-without, with_object,
  without_object,
}
use lua_conmanorg.Prelude.{
  ℕ, ◌+◌, ◌%◌, ◌^◌, ltb, false, Option, none, some, List, [], length, ℤ, pos, negsuc, Outcome, ok,
  stop, ◌>>=◌, Bool-cases, ◌≡◌, inl, inr, refl, sym, ap, subst, ◌∙◌, arith,
}

module _ {K : Type 0} (epoll : Epoll K) (members : K → List ℕ)
    (laws : Documented epoll members) where
  -- One call, and the set before and after it.
  pub data Step : PollSet K → PollSet K → Type 0 where
    insert :
        {s : PollSet K} (tofd : Option ℕ) (flags : List ℕ) (obj : Option Value)
        → Step s (polllua_insert epoll s tofd flags obj).1
    update :
        {s : PollSet K} (tofd : Option ℕ) (flags : List ℕ)
        → Step s (polllua_update epoll s tofd flags).1
    remove : {s : PollSet K} (tofd : Option ℕ) → Step s (polllua_remove epoll s tofd).1
    wait : {s : PollSet K} (memory : Option ℕ) → Step s (polllua_wait epoll s memory).1
    next : {s s' : PollSet K} {event : Option Event} → pollset_next s ≡ ok (event, s') → Step s s'

  pub data Reachable : PollSet K → Type 0 where
    new : (efh : K) → members efh ≡ [] → Reachable (pollset_lua efh)
    step : {s s' : PollSet K} → Reachable s → Step s s' → Reachable s'

  -- The same members.
  kept :
      {s : PollSet K} (k : K)
      → WellFormed members s
      → members k ≡ members s.efh
      → WellFormed members (record s { efh = k })
  kept k w e = record {
    size = w.size ∙ ap (λ ms. length ms % 2 ^ 64) (sym e);
    distinct = subst Distinct (sym e) w.distinct;
    objects = λ i. w.objects i ∙ ap (λ ms. has ms i) (sym e);
    listed = w.listed;
  }

  added-WellFormed :
      (s : PollSet K) (fh events : ℕ) (obj : Option Value) (r : K × Option ℕ)
      → WellFormed members s
      → epoll.epoll_ctl s.efh ctl_add fh events ≡ r
      → WellFormed members (added s fh obj r).1
  unfolding added has Distinct
  added-WellFormed s fh events obj (k, some e) w h =
      kept k w (laws.fails s.efh ctl_add fh events e k h)
  added-WellFormed s fh events obj (k, none) w h =
      let new = laws.adds s.efh fh events k h in
      record {
        size = omega (arith, w.size, ap length new.1);
        distinct = subst Distinct (sym new.1) (new.0, w.distinct);
        objects = λ i.
            with_object s.uservalue fh obj i (has (members s.efh) i) (w.objects i)
            ∙ ap (λ ms. has ms i) (sym new.1);
        listed = w.listed;
      }

  deleted-WellFormed :
      (s : PollSet K) (fh : ℕ) (r : K × Option ℕ)
      → WellFormed members s
      → epoll.epoll_ctl s.efh ctl_del fh 0 ≡ r
      → WellFormed members (deleted s fh r).1
  unfolding deleted
  deleted-WellFormed s fh (k, some e) w h = kept k w (laws.fails s.efh ctl_del fh 0 e k h)
  deleted-WellFormed s fh (k, none) w h =
      let gone = laws.deletes s.efh fh 0 k h in
      record {
        size = omega (arith, w.size, ap length gone.1, length-without (members s.efh) fh gone.0);
        distinct = subst Distinct (sym gone.1) (Distinct-without (members s.efh) fh w.distinct);
        objects = λ i.
            without_object s.uservalue fh i (has (members s.efh) i) (w.objects i)
            ∙ sym (has-without (members s.efh) fh i w.distinct)
            ∙ ap (λ ms. has ms i) (sym gone.1);
        listed = w.listed;
      }

  modified-WellFormed :
      (s : PollSet K) (r : K × Option ℕ)
      → WellFormed members s
      → members r.0 ≡ members s.efh
      → WellFormed members (modified s r).1
  unfolding modified
  modified-WellFormed s (k, some e) w h = kept k w h
  modified-WellFormed s (k, none) w h = kept k w h

  -- Another list.
  relisted :
      {s : PollSet K} (list : Option (List Ready)) (max : ℤ) (count : ℕ)
      → WellFormed members s
      → Listed list max count
      → WellFormed members (record s { list = list; max = max; count = count })
  relisted list max count w l = record {
    size = w.size;
    distinct = w.distinct;
    objects = w.objects;
    listed = l;
  }

  awaited-WellFormed :
      (s : PollSet K) (r : K × Awaited)
      → WellFormed members s
      → members r.0 ≡ members s.efh
      → WellFormed members (awaited s r).1
  unfolding awaited Listed
  awaited-WellFormed s (k, wait_failed e) w h = relisted none (negsuc 0) 0 (kept k w h) tt
  awaited-WellFormed s (k, got list) w h =
      relisted (some list) (pos (length list)) 0 (kept k w h) refl

  set_of : PollSet K → Outcome (Option Event × PollSet K) → PollSet K
  set_of s (ok t) = t.1
  set_of s (stop e) = s

  moved_on : (l : Option (List Ready)) (m : ℤ) (c : ℕ) → Listed l m c → Listed l m (c + 1)
  unfolding Listed
  moved_on none (pos m) c h = omega arith
  moved_on (some l) (pos m) c h = h
  moved_on none (negsuc n) c h = tt
  moved_on (some l) (negsuc n) c h = tt

  let_go :
      (l : Option (List Ready)) (m : ℤ) (c : ℕ)
      → less_than c m ≡ false
      → Listed l m c
      → Listed none m c
  unfolding Listed less_than
  let_go l (pos m) c e h = ground arith
  let_go l (negsuc n) c e h = tt

  -- The iterator moves on, or lets go of the array.
  next-WellFormed :
      {s s' : PollSet K} {event : Option Event}
      → WellFormed members s
      → pollset_next s ≡ ok (event, s')
      → WellFormed members s'
  unfolding pollset_next set_of
  next-WellFormed {s} {s'} {event} w e = elim (Bool-cases (less_than s.count s.max)) [
    | inl more ↦ go (event_of s.uservalue (list_at s.list s.count)) (rw more at e)
    | inr done ↦
        subst (WellFormed members) (ap (set_of s) (rw done at e))
          (relisted none s.max s.count w (let_go s.list s.max s.count done w.listed))
  ]
    where
      go :
          (o : Outcome Event)
          → ◌≡◌ {A = Outcome (Option Event × PollSet K)}
              (◌>>=◌ {B = Option Event × PollSet K} o
                (λ event. ok (some event, record s { count = s.count + 1 })))
              (ok (event, s'))
          → WellFormed members s'
      go (ok event') d =
          subst (WellFormed members) (ap (set_of s) d)
            (relisted s.list s.max (s.count + 1) w (moved_on s.list s.max s.count w.listed))
      go (stop x) d = cc

  waited-WellFormed :
      (s : PollSet K) (memory : Option ℕ)
      → WellFormed members s
      → WellFormed members (polllua_wait epoll s memory).1
  unfolding polllua_wait Listed
  waited-WellFormed s memory w = elim (Bool-cases (ltb 0 s.idx)) [
    | inr nothing ↦ rw nothing (relisted none (pos 0) 0 w (omega arith))
    | inl some_there ↦ rw some_there (by_memory memory)
  ]
    where
      by_memory :
          (memory : Option ℕ)
          → WellFormed members
              (elim memory as (λ _. Waited × PollSet K) [
                | some e ↦ (wait_error e, record s { list = none; max = negsuc 0; count = 0 })
                | none ↦ awaited s (epoll.epoll_wait s.efh s.idx)
              ]).1
      by_memory (some e) = relisted none (negsuc 0) 0 w tt
      by_memory none =
          awaited-WellFormed s (epoll.epoll_wait s.efh s.idx) w (laws.waits s.efh s.idx)

  Step-WellFormed : {s s' : PollSet K} → WellFormed members s → Step s s' → WellFormed members s'
  unfolding polllua_insert polllua_update polllua_remove polllua_wait
  Step-WellFormed w (insert none flags obj) = w
  Step-WellFormed {s = s} w (insert (some fh) flags obj) =
      added-WellFormed s fh (pollset_toevents flags) obj _ w refl
  Step-WellFormed w (update none flags) = w
  Step-WellFormed {s = s} w (update (some fh) flags) =
      modified-WellFormed s _ w (laws.modifies s.efh fh (pollset_toevents flags))
  Step-WellFormed w (remove none) = w
  Step-WellFormed {s = s} w (remove (some fh)) = deleted-WellFormed s fh _ w refl
  Step-WellFormed {s = s} w (wait memory) = waited-WellFormed s memory w
  Step-WellFormed w (next e) = next-WellFormed w e

  new_set-WellFormed : (efh : K) → members efh ≡ [] → WellFormed members (pollset_lua efh)
  unfolding pollset_lua is_some has Distinct Listed
  new_set-WellFormed efh e = record {
    size = omega (arith, ap length e);
    distinct = subst Distinct (sym e) tt;
    objects = λ k. ap (λ ms. has ms k) (sym e);
    listed = omega arith;
  }

  -- For every set that calls of `insert`, `update`, `remove`, `wait` and the iterator make from a new
  -- one, failing calls included: `idx` counts the descriptors that are registered with the kernel, no
  -- descriptor is registered twice, there are objects for these descriptors and no others, and the
  -- iterator stays within the array.
  pub Reachable-WellFormed_epoll : {s : PollSet K} → Reachable s → WellFormed members s
  Reachable-WellFormed_epoll (new efh e) = new_set-WellFormed efh e
  Reachable-WellFormed_epoll (step r t) = Step-WellFormed (Reachable-WellFormed_epoll r) t
