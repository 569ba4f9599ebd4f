-- ===== src/Pollset/Poll.antt =====
-- The set of src/pollset.c on poll(): POLLSET_IMPL_POLL.
pub mod Elements
pub mod Invariant
pub mod Removal
pub mod Reports
use lua_conmanorg.Pollset.Events.{pollset_toevents, pollset_pushevents, Report}
use lua_conmanorg.Prelude.{
  ℕ, zero, suc, ◌+◌, ◌-◌, ◌<◌, ltb, ◌==◌, Bool, true, false, not, ◌||◌, if◌then◌else◌, Option, none,
  some, List, [], ◌∷◌, ◌++◌, drop, Outcome, ok, stop, undefined,
}

-- A descriptor is the natural number with the bits of the `int`.
pub record PollFd : Type 0 where
  pub fd : ℕ
  pub events : ℕ
  pub revents : ℕ

-- A Lua value: an integer, or something else by its number.
pub data Value : Type 0 where
  integer : ℕ → Value
  object : ℕ → Value

-- `pollset__t`, with `set` for the elements up to `idx`, and with the table that is its user value.
pub record PollSet : Type 0 where
  pub set : List PollFd
  pub idx : ℕ
  pub max : ℕ
  pub count : ℕ
  pub uservalue : ℕ → Option Value

-- Of <errno.h>.
abbrev pub einval : ℕ
einval = 22

abbrev pub enomem : ℕ
enomem = 12

unfoldable pub pollset_lua : ℕ → PollSet
pollset_lua uninitialised = record {
  set = [];
  idx = 0;
  max = 0;
  count = uninitialised;
  uservalue = λ _. none;
}

unfoldable pub polllua___len : PollSet → ℕ
polllua___len s = s.idx

-- `lua_settable`.
unfoldable pub settable : (ℕ → Option Value) → ℕ → Option Value → ℕ → Option Value
settable table key value k = if k == key then value else table k

unfoldable pub obj_or_fd : ℕ → Option Value → Value
obj_or_fd fh none = integer fh
obj_or_fd fh (some obj) = obj

-- What the system says while a set grows: the soft limit on open files or an error number, and
-- whether there is memory; and what stands in the `revents` of the new element, which is not set.
pub record System : Type 0 where
  pub getrlimit : Outcome ℕ
  pub errno : ℕ
  pub has_memory : Bool
  pub stale : ℕ

-- The room of the set for one more descriptor: an error number, or the new `max`.
pub data Room : Type 0 where
  error : ℕ → Room
  room : ℕ → Room

unfoldable pub new_max : ℕ → ℕ → ℕ
new_max max limit = if ltb limit (max + 10) then limit else max + 10

unfoldable pub grown : System → ℕ → Outcome ℕ → Room
grown system max (stop s) = error system.errno
grown system max (ok limit) =
    if max == limit
    then error enomem
    else if system.has_memory
    then room (new_max max limit)
    else error enomem

unfoldable pub make_room : System → PollSet → Room
make_room system s = if s.idx == s.max then grown system s.max system.getrlimit else room s.max

-- A write behind the end of the array has no defined result. A reduced array loses elements.
unfoldable pub place : PollSet → ℕ → ℕ → ℕ → List ℕ → Option Value → Outcome (ℕ × PollSet)
place s stale max fh flags obj =
    if ltb s.idx max
    then ok (
      0,
      record {
        set = s.set ++ (record { fd = fh; events = pollset_toevents flags; revents = stale } ∷ []);
        idx = s.idx + 1;
        max = max;
        count = s.count;
        uservalue = settable s.uservalue fh (some (obj_or_fd fh obj));
      },
    )
    else stop undefined

unfoldable pub insert_in : PollSet → ℕ → ℕ → List ℕ → Option Value → Room → Outcome (ℕ × PollSet)
insert_in s stale fh flags obj (error e) = ok (e, s)
insert_in s stale fh flags obj (room max) = place s stale max fh flags obj

-- The results are an error number, 0 for none, and the set. `tofd` is what the metamethod `_tofd` of
-- the file gives, where there is one.
unfoldable pub polllua_insert :
    System → PollSet → Option ℕ → List ℕ → Option Value → Outcome (ℕ × PollSet)
polllua_insert system s none flags obj = ok (einval, s)
polllua_insert system s (some fh) flags obj =
    insert_in s system.stale fh flags obj (make_room system s)

-- The loop over the elements: the first one of the descriptor is changed.
unfoldable pub update_loop : List PollFd → ℕ → ℕ → Option (List PollFd)
update_loop [] fh events = none
update_loop (p ∷ rest) fh events =
    let later = elim (update_loop rest fh events) as (λ _. Option (List PollFd)) [
      | none ↦ none
      | some more ↦ some (p ∷ more)
    ] in
    if p.fd == fh then some (record p { events = events } ∷ rest) else later

unfoldable pub updated : PollSet → Option (List PollFd) → ℕ × PollSet
updated s none = (einval, s)
updated s (some set) = (0, record s { set = set })

unfoldable pub polllua_update : PollSet → Option ℕ → List ℕ → ℕ × PollSet
polllua_update s none flags = (einval, s)
polllua_update s (some fh) flags = updated s (update_loop s.set fh (pollset_toevents flags))

-- The elements behind the first one of the descriptor move down by one.
unfoldable pub remove_loop : List PollFd → ℕ → Option (List PollFd)
remove_loop [] fh = none
remove_loop (p ∷ rest) fh =
    let later = elim (remove_loop rest fh) as (λ _. Option (List PollFd)) [
      | none ↦ none
      | some more ↦ some (p ∷ more)
    ] in
    if p.fd == fh then some rest else later

unfoldable pub removed : PollSet → ℕ → Option (List PollFd) → ℕ × PollSet
removed s fh none = (einval, s)
removed s fh (some set) =
    (0, record s { set = set; idx = s.idx - 1; uservalue = settable s.uservalue fh none })

unfoldable pub polllua_remove : PollSet → Option ℕ → ℕ × PollSet
polllua_remove s none = (einval, s)
polllua_remove s (some fh) = removed s fh (remove_loop s.set fh)

-- poll() writes the `revents` of each element, and gives how many are not 0, or an error number.
pub data Polled : Type 0 where
  failed : ℕ → Polled
  ready : List ℕ → Polled

unfoldable pub write_revents : List PollFd → List ℕ → List PollFd
write_revents [] revents = []
write_revents (p ∷ rest) [] = p ∷ rest
write_revents (p ∷ rest) (r ∷ more) = record p { revents = r } ∷ write_revents rest more

unfoldable pub events_count : List PollFd → ℕ
events_count [] = 0
events_count (p ∷ rest) = if p.revents == 0 then events_count rest else suc (events_count rest)

-- The two results for Lua: `true` and whether the time ran out, or `false` and an error number.
pub data Waited : Type 0 where
  waited : Bool → Waited
  wait_error : ℕ → Waited

unfoldable pub polllua_wait : PollSet → Polled → Waited × PollSet
polllua_wait s (failed e) = (wait_error e, record s { count = 0 })
polllua_wait s (ready revents) =
    let set = write_revents s.set revents in
    (waited (events_count set == 0), record s { set = set; count = 0 })

-- An event: the fields of the table, with `obj`.
abbrev pub Event : Type 0
Event = Report × Option Value

-- From the element of the number `count` on; the results are the event and the new `count`.
unfoldable pub next_loop : (ℕ → Option Value) → List PollFd → ℕ → Option Event × ℕ
next_loop table [] count = (none, count)
next_loop table (p ∷ rest) count =
    let later = next_loop table rest (suc count) in
    if p.revents == 0 then later else (some (pollset_pushevents p.revents, table p.fd), suc count)

unfoldable pub pollset_next : PollSet → Option Event × PollSet
pollset_next s =
    let r = next_loop s.uservalue (drop s.count s.set) s.count in (r.0, record s { count = r.1 })

-- `polllua_events` is the iterator `pollset_next`: all that a loop over it sees.
unfoldable pub polllua_events : ℕ → PollSet → List Event
polllua_events zero s = []
polllua_events (suc fuel) s =
    let r = pollset_next s in
    elim r.0 as (λ _. List Event) [ none ↦ [] | some event ↦ event ∷ polllua_events fuel r.1 ]

-- A second call finds nothing to free.
unfoldable pub polllua___gc : PollSet → PollSet
polllua___gc s = record s { set = []; max = 0 }
