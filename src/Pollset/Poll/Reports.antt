-- ===== src/Pollset/Poll/Reports.antt =====
-- What a loop over the events of a set of src/pollset.c on poll() sees.
use lua_conmanorg.Pollset.Poll.{
  PollFd, Value, PollSet, ready, write_revents, events_count, waited, polllua_wait, Event,
  next_loop, pollset_next, polllua_events,
}
use lua_conmanorg.Pollset.Poll.Elements.{length-write_revents}
use lua_conmanorg.Pollset.Events.{pollset_pushevents}
use lua_conmanorg.Prelude.{
  ℕ, zero, suc, ◌+◌, ◌<◌, ◌==◌, true, if◌then◌else◌, Option, none, some, List, [], ◌∷◌, length,
  length-drop, drop, Bool-cases, ◌≡◌, inl, inr, refl, sym, ap, ◌∙◌, arith,
}

-- The elements with events, in their order, each with the object of its descriptor.
unfoldable pub reports : (ℕ → Option Value) → List PollFd → List Event
reports table [] = []
reports table (p ∷ rest) =
    let later = reports table rest in
    if p.revents == 0 then later else (pollset_pushevents p.revents, table p.fd) ∷ later

pub data Next (table : ℕ → Option Value) (xs : List PollFd) (count : ℕ)
    : Option Event × ℕ → Type 0 where
  finished : {n : ℕ} → reports table xs ≡ [] → Next table xs count (none, n)
  found :
      {event : Event} (n : ℕ)
      → reports table xs ≡ event ∷ reports table (drop (suc n) xs)
      → n < length xs
      → Next table xs count (some event, count + suc n)

next_loop-Next :
    (table : ℕ → Option Value) (xs : List PollFd) (count : ℕ)
    → Next table xs count (next_loop table xs count)
unfolding next_loop reports
next_loop-Next table [] count = finished refl
next_loop-Next table (p ∷ rest) count = elim (Bool-cases (p.revents == 0)) [
  | inl quiet ↦
      rw quiet
        (later (next_loop table rest (suc count)) (next_loop-Next table rest (suc count)) quiet)
  | inr busy ↦
      let one : suc count ≡ count + 1 = omega arith in
      rw busy (rw one (found 0 (rw busy refl) (omega arith)))
]
  where
    later :
        (r : Option Event × ℕ)
        → Next table rest (suc count) r
        → (p.revents == 0) ≡ true
        → Next table (p ∷ rest) count r
    later r (finished e) q = finished (rw q e)
    later r (found n e l) q =
        let more : suc count + suc n ≡ count + suc (suc n) = omega arith in
        rw more (found (suc n) (rw q e) (omega arith))

drop_nothing : (n : ℕ) → drop {A = PollFd} n [] ≡ []
drop_nothing zero = refl
drop_nothing (suc n) = refl

drop_more : (m n : ℕ) (xs : List PollFd) → drop n (drop m xs) ≡ drop (m + n) xs
drop_more zero n xs = let same : 0 + n ≡ n = omega arith in rw same refl
drop_more (suc m) n [] = drop_nothing n ∙ sym (drop_nothing (suc m + n))
drop_more (suc m) n (x ∷ xs) =
    let same : suc m + n ≡ suc (m + n) = omega arith in rw same (drop_more m n xs)

events_from :
    (fuel : ℕ) (s : PollSet)
    → length (drop s.count s.set) < fuel
    → polllua_events fuel s ≡ reports s.uservalue (drop s.count s.set)
unfolding polllua_events pollset_next
events_from zero s h = absurd (omega arith)
events_from (suc fuel) s h =
    go (next_loop s.uservalue (drop s.count s.set) s.count)
      (next_loop-Next s.uservalue (drop s.count s.set) s.count)
      (λ c k. events_from fuel (record s { count = c }) k)
  where
    go :
        (r : Option Event × ℕ)
        → Next s.uservalue (drop s.count s.set) s.count r
        → ((c : ℕ)
            → length (drop c s.set) < fuel
            → polllua_events fuel (record s { count = c }) ≡ reports s.uservalue (drop c s.set))
        → elim r.0 as (λ _. List Event) [
          | none ↦ []
          | some event ↦ event ∷ polllua_events fuel (record s { count = r.1 })
        ]
          ≡ reports s.uservalue (drop s.count s.set)
    go r (finished e) next = sym e
    go r (found {event} n e l) next =
        let dropped = drop_more s.count (suc n) s.set in
        ap (λ more. event ∷ more)
          (next (s.count + suc n)
              (omega (arith, h, l, length-drop s.count s.set, length-drop (s.count + suc n) s.set))
            ∙ ap (reports s.uservalue) (sym dropped))
        ∙ sym e

length-reports :
    (table : ℕ → Option Value) (xs : List PollFd) → length (reports table xs) ≡ events_count xs
unfolding reports events_count
length-reports table [] = refl
length-reports table (p ∷ rest) = elim (Bool-cases (p.revents == 0)) [
  | inl quiet ↦ rw quiet (length-reports table rest)
  | inr busy ↦ rw busy (ap suc (length-reports table rest))
]

-- After a `wait` that does not fail, the loop over the events ends, and it sees each element for which
-- there are events, once and in the order of the set, with the object of its descriptor; and `wait`
-- says that the time ran out exactly when there are none.
pub wait-events :
    (s : PollSet) (revents : List ℕ) (fuel : ℕ)
    → length s.set < fuel
    → (polllua_events fuel (polllua_wait s (ready revents)).1
        ≡ reports s.uservalue (write_revents s.set revents))
      × ((polllua_wait s (ready revents)).0
          ≡ waited (length (reports s.uservalue (write_revents s.set revents)) == 0))
unfolding polllua_wait
wait-events s revents fuel h =
    let set = write_revents s.set revents in
    let enough : length set < fuel = omega (arith, h, length-write_revents s.set revents) in
    (
      events_from fuel (record s { set = set; count = 0 }) enough,
      ap (λ n. waited (n == 0)) (sym (length-reports s.uservalue set)),
    )
