-- ===== src/Pollset/Select/Ready.antt =====
-- What a loop over the events of src/pollset.c on select() sees.
use lua_conmanorg.Pollset.Select.{
  PollSet, Event, pollset_pushevents, is_left, next_loop, pollset_next, FdSet, polllua_wait,
  selected, polllua_events,
}
use lua_conmanorg.Prelude.{
  ℕ, zero, suc, ◌+◌, ◌-◌, ◌<◌, ◌||◌, ◌≡◌, refl, ap, ◌∙◌, if◌then◌else◌, Option, none, some, List,
  [], ◌∷◌, Bool-cases, inl, inr, arith,
}

-- One event for each descriptor that select() has left, from `i` on, for `n` numbers.
unfoldable left_events : PollSet → ℕ → ℕ → List Event
left_events s i zero = []
left_events s i (suc n) =
    let later = left_events s (suc i) n in
    if is_left s i then (pollset_pushevents s i, s.uservalue i) ∷ later else later

abbrev at : PollSet → ℕ → PollSet
at s c = record s { count = c }

next_loop-at : (s : PollSet) (d c n : ℕ) → next_loop (at s d) c n ≡ next_loop s c n
unfolding next_loop is_left pollset_pushevents
next_loop-at s d c zero = refl
next_loop-at s d c (suc n) = rw (next_loop-at s d (suc c) n) refl

-- What a round of the loop sees, and the rounds after it.
seen : ℕ → PollSet → Option Event × ℕ → List Event
seen fuel s (none, c) = []
seen fuel s (some event, c) = event ∷ polllua_events fuel (at s c)

elim-seen :
    (fuel : ℕ) (s : PollSet) (r : Option Event × ℕ)
    → elim r.0 as (λ _. List Event) [
      | none ↦ []
      | some event ↦ event ∷ polllua_events fuel (at s r.1)
    ]
      ≡ seen fuel s r
unfolding seen
elim-seen fuel s (none, c) = refl
elim-seen fuel s (some event, c) = refl

events-seen :
    (fuel : ℕ) (s : PollSet) (c : ℕ)
    → polllua_events (suc fuel) (at s c) ≡ seen fuel s (next_loop s c (s.max + 1 - c))
unfolding polllua_events pollset_next
events-seen fuel s c =
    elim-seen fuel s (next_loop (at s c) c (s.max + 1 - c))
    ∙ ap (seen fuel s) (next_loop-at s c c (s.max + 1 - c))

seen-from :
    (fuel : ℕ) (s : PollSet) (n c : ℕ)
    → ((m d : ℕ) → s.max + 1 - d ≡ m → m < fuel → polllua_events fuel (at s d) ≡ left_events s d m)
    → s.max + 1 - c ≡ n
    → n < suc fuel
    → seen fuel s (next_loop s c n) ≡ left_events s c n
unfolding seen next_loop left_events
seen-from fuel s zero c again e h = refl
seen-from fuel s (suc n) c again e h = elim (Bool-cases (is_left s c)) [
  | inl left ↦ rw left (
      ap (λ (l : List Event). (pollset_pushevents s c, s.uservalue c) ∷ l)
        (again n (suc c) (omega arith) (omega arith)))
  | inr gone ↦ rw gone (seen-from fuel s n (suc c) again (omega arith) (omega arith))
]

events-from :
    (s : PollSet) (n c fuel : ℕ)
    → s.max + 1 - c ≡ n
    → n < fuel
    → polllua_events fuel (at s c) ≡ left_events s c n
events-from s n c zero e h = absurd (omega arith)
events-from s n c (suc fuel) e h =
    events-seen fuel s c
    ∙ ap (λ m. seen fuel s (next_loop s c m)) e
    ∙ seen-from fuel s n c (λ m d. events-from s m d fuel) e h

-- The events of a set `s` for which select() has left the sets `r`, `w` and `x`, of the descriptors from
-- `i` on, for `n` numbers: the flags are the sets that were asked for.
unfoldable pub asked_events : PollSet → FdSet → FdSet → FdSet → ℕ → ℕ → List Event
asked_events s r w x i zero = []
asked_events s r w x i (suc n) =
    let later = asked_events s r w x (suc i) n in
    if r i || w i || x i
    then (record { read = s.read i; write = s.write i; priority = s.except i }, s.uservalue i)
      ∷ later
    else later

left_events-asked :
    (s : PollSet) (events : ℕ) (r w x : FdSet) (i n : ℕ)
    → left_events (polllua_wait s (selected events r w x)).1 i n ≡ asked_events s r w x i n
unfolding left_events asked_events polllua_wait is_left pollset_pushevents
left_events-asked s events r w x i zero = refl
left_events-asked s events r w x i (suc n) = rw (left_events-asked s events r w x (suc i) n) refl

-- After a wait that select() answers, a loop over the events ends, and sees each descriptor up to
-- `max` that select() has left in a set, once and in ascending order, with its object; but the flags
-- of an event say in which of the sets read, write and except that select() was asked for the descriptor
-- is, whatever select() has left.
pub wait-left_events :
    (s : PollSet) (events : ℕ) (r w x : FdSet) (fuel : ℕ)
    → s.max + 1 < fuel
    → polllua_events fuel (polllua_wait s (selected events r w x)).1
      ≡ asked_events s r w x 0 (s.max + 1)
unfolding polllua_wait
wait-left_events s events r w x fuel h =
    let t = (polllua_wait s (selected events r w x)).1 in
    events-from t (s.max + 1) 0 fuel (omega arith) h
    ∙ left_events-asked s events r w x 0 (s.max + 1)
