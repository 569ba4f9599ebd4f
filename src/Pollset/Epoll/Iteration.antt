-- ===== src/Pollset/Epoll/Iteration.antt =====
-- What a loop over the events of a set of src/pollset.c on epoll sees.
use lua_conmanorg.Pollset.Poll.{Value}
use lua_conmanorg.Pollset.Poll.Invariant.{is_some}
use lua_conmanorg.Pollset.Epoll.Kernel.{Ready, Awaited, wait_failed, got, Epoll, has, Documented}
use lua_conmanorg.Pollset.Epoll.{
  PollSet, Event, event_of, list_at, less_than, pollset_next, polllua_events, Waited, waited,
  wait_error, awaited, polllua_wait, pollset_pushevents,
}
use lua_conmanorg.Pollset.Epoll.Members.{WellFormed}
use lua_conmanorg.Prelude.Bits.{bit_and_step, bit_and-zero}
use lua_conmanorg.Prelude.{
  ◌⊎◌, inr, Bool, bit_and, not, ◌*◌, ◌/◌, ◌%◌, ℕ, zero, suc, ◌+◌, ◌≤◌, ◌<◌, ltb, ltb→lt, ◌==◌, true,
  Option, none, some, List, [], ◌∷◌, map, length, drop, get_elem?, pos, negsuc, ok, Bool-cases, All,
  ◌≡◌, inl, refl, sym, ap, ◌∙◌, arith,
}

abbrev powers : ℕ → ℕ
powers zero = 1
powers (suc k) = powers k * 2

-- The binary digit `k` of a number is 1.
unfoldable pub digit_of : ℕ → ℕ → Bool
digit_of n zero = n % 2 == 1
digit_of n (suc k) = digit_of (n / 2) k

-- EPOLLIN is 1, EPOLLPRI 2, EPOLLOUT 4, EPOLLERR 8 and EPOLLHUP 16.
unfoldable pub report : (ℕ → Option Value) → Ready → Event
report table r = (
  record {
    read = digit_of r.events 0;
    write = digit_of r.events 2;
    priority = digit_of r.events 1;
    error = digit_of r.events 3;
    hangup = digit_of r.events 4;
  },
  table r.fd,
)

digit_of-bit_and : (k n : ℕ) → not (bit_and n (powers k) == 0) ≡ digit_of n k
unfolding digit_of
digit_of-bit_and zero n = ground (arith, bit_and_step n 1, bit_and-zero (n / 2))
digit_of-bit_and (suc k) n =
    ground (arith, bit_and_step n (powers k * 2), digit_of-bit_and k (n / 2))

pushevents-report :
    (table : ℕ → Option Value) (r : Ready)
    → (pollset_pushevents r.events, table r.fd) ≡ report table r
unfolding pollset_pushevents report
pushevents-report table r =
    rw
      (
        digit_of-bit_and 0 r.events,
        digit_of-bit_and 1 r.events,
        digit_of-bit_and 2 r.events,
        digit_of-bit_and 3 r.events,
        digit_of-bit_and 4 r.events,
      )
      refl

-- The first of what is left.
first_left :
    (list : List Ready) (c : ℕ)
    → c < length list
    → (r : Ready) × (get_elem? list c ≡ some r) × (drop c list ≡ r ∷ drop (c + 1) list)
first_left [] c h = absurd (omega arith)
first_left (r ∷ list) zero h = (r, refl, refl)
first_left (r ∷ list) (suc c) h =
    let more : suc c + 1 ≡ suc (c + 1) = omega arith in
    let left = first_left list c (omega arith) in (left.0, left.1, rw more left.2)

none_left : (list : List Ready) (c : ℕ) → length list ≤ c → drop c list ≡ []
none_left [] zero h = refl
none_left [] (suc c) h = refl
none_left (r ∷ list) zero h = absurd (omega arith)
none_left (r ∷ list) (suc c) h = none_left list c (omega arith)

module _ {K : Type 0} where
  events_from :
      (fuel : ℕ) (list : List Ready) (s : PollSet K)
      → s.list ≡ some list
      → s.max ≡ pos (length list)
      → length list < fuel + s.count
      → 0 < fuel
      → polllua_events fuel s ≡ ok (map (report s.uservalue) (drop s.count list))
  unfolding polllua_events pollset_next event_of list_at less_than
  events_from zero list s l m h k = absurd (omega arith)
  events_from (suc fuel) list s l m h k = elim (Bool-cases (ltb s.count (length list))) [
    | inr over ↦ rw m (
        rw over (
          ap (λ rest. ok (map (report s.uservalue) rest))
            (sym (none_left list s.count (ground arith)))))
    | inl fits ↦
        let left = first_left list s.count (ltb→lt s.count (length list) fits) in
        let in_list : s.count < length list = ltb→lt s.count (length list) fits in
        let rest =
          events_from fuel list
            (record s { list = some list; max = pos (length list); count = s.count + 1 }) refl refl
            (omega arith) (omega arith) in
        rw m (
          rw fits
            (rw l (rw left.1 (rw left.2 (rw (rest, pushevents-report s.uservalue left.0) refl)))))
  ]

map_objects :
    (table : ℕ → Option Value) (ms : List ℕ) (list : List Ready)
    → ((k : ℕ) → is_some (table k) ≡ has ms k)
    → All (λ r. has ms r.fd ≡ true) list
    → All (λ r. is_some (table r.fd) ≡ true) list
map_objects table ms [] h a = tt
map_objects table ms (r ∷ list) h a = (h r.fd ∙ a.0, map_objects table ms list h a.1)

no_events :
    {K : Type 0} (s : PollSet K) (fuel : ℕ)
    → polllua_events fuel (record s { list = none; max = pos 0; count = 0 }) ≡ ok []
unfolding polllua_events pollset_next less_than
no_events s zero = refl
no_events s (suc fuel) = refl

-- A `wait` that has failed for want of memory or in the kernel, or had nothing to wait for, or one for which the kernel gives a list of
-- descriptors, and after which the loop over the events is as it should be: one event for each of the
-- list, in its order, with the flags that its number has and the object of its descriptor, which there
-- is.
pub data WaitReports {K : Type 0} (kernel : K × Awaited) (memory : Option ℕ) (s s' : PollSet K)
    (fuel : ℕ) : Waited → Type 0 where
  failed :
      (e : ℕ)
      → (memory ≡ some e) ⊎ ((k : K) × (kernel ≡ (k, wait_failed e)))
      → WaitReports kernel memory s s' fuel (wait_error e)
  empty :
      s.idx ≡ 0 → polllua_events fuel s' ≡ ok [] → WaitReports kernel memory s s' fuel (waited true)
  reported :
      (k : K) (list : List Ready)
      → kernel ≡ (k, got list)
      → polllua_events fuel s' ≡ ok (map (report s.uservalue) list)
      → length list ≤ s.idx
      → All (λ r. is_some (s.uservalue r.fd) ≡ true) list
      → WaitReports kernel memory s s' fuel (waited (length list == 0))

module _ {K : Type 0} (epoll : Epoll K) (members : K → List ℕ)
    (laws : Documented epoll members) where
  awaited-WaitReports :
      (memory : Option ℕ) (s : PollSet K) (fuel : ℕ) (r : K × Awaited)
      → WellFormed members s
      → s.idx < fuel
      → epoll.epoll_wait s.efh s.idx ≡ r
      → WaitReports r memory s (awaited s r).1 fuel (awaited s r).0
  unfolding awaited
  awaited-WaitReports memory s fuel (k, wait_failed e) w h d = failed e (inr (k, refl))
  awaited-WaitReports memory s fuel (k, got list) w h d =
      let documented = laws.reports s.efh s.idx k list d in
      let after : PollSet K = record s {
        efh = k;
        list = some list;
        max = pos (length list);
        count = 0;
      } in
      reported k list refl
        (events_from fuel list after refl refl (omega (arith, documented.0)) (omega arith))
        documented.0 (map_objects s.uservalue (members s.efh) list w.objects documented.1)

  -- A `wait` on a well-formed set fails only for want of memory or where the kernel fails, with that
  -- error. After one that does not fail, the loop over the events ends and reads
  -- nothing outside the array: it sees one event for each descriptor that the kernel has given, none where the set is empty, in that
  -- order, with the flags of the kernel's number and with the object that the descriptor has; these are at
  -- most `idx`, and `wait` says that the time ran out exactly when there are none.
  pub wait-WaitReports :
      (s : PollSet K) (memory : Option ℕ) (fuel : ℕ)
      → WellFormed members s
      → s.idx < fuel
      → WaitReports
          (epoll.epoll_wait s.efh s.idx)
          memory
          s
          (polllua_wait epoll s memory).1
          fuel
          (polllua_wait epoll s memory).0
  unfolding polllua_wait
  wait-WaitReports s memory fuel w h = elim (Bool-cases (ltb 0 s.idx)) [
    | inr nothing ↦ rw nothing (empty (ground arith) (no_events s fuel))
    | inl some_there ↦ rw some_there (by_memory memory)
  ]
    where
      by_memory :
          (memory : Option ℕ)
          → WaitReports
              (epoll.epoll_wait s.efh s.idx)
              memory
              s
              (elim memory as (λ _. Waited × PollSet K) [
                | some e ↦ (wait_error e, record s { list = none; max = negsuc 0; count = 0 })
                | none ↦ awaited s (epoll.epoll_wait s.efh s.idx)
              ]).1
              fuel
              (elim memory as (λ _. Waited × PollSet K) [
                | some e ↦ (wait_error e, record s { list = none; max = negsuc 0; count = 0 })
                | none ↦ awaited s (epoll.epoll_wait s.efh s.idx)
              ]).0
      by_memory (some e) = failed e (inl refl)
      by_memory none = awaited-WaitReports none s fuel (epoll.epoll_wait s.efh s.idx) w h refl
