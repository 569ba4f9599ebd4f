-- ===== src/Pollset/Select.antt =====
-- The set of src/pollset.c on select(): POLLSET_IMPL_SELECT.
pub mod Bounded
pub mod Ready
mod Tests
use lua_conmanorg.Pollset.Poll.{Value, einval, settable, obj_or_fd}
use lua_conmanorg.Prelude.{
  ℕ, zero, suc, ◌+◌, ◌-◌, ◌%◌, ◌^◌, ltb, leb, ◌==◌, ◌||◌, not, Bool, true, false, if◌then◌else◌,
  Option, none, some, List, [], ◌∷◌, ℤ, pos, negsuc, Outcome, ok, stop, undefined, ◌>>=◌,
}

-- `fd_set`, and FD_SET() and FD_CLR(), which are undefined for a number that has no place in the set.
abbrev pub fd_setsize : ℕ
fd_setsize = 1024

abbrev pub FdSet : Type 0
FdSet = ℕ → Bool

abbrev pub no_fds : FdSet
no_fds k = false

unfoldable pub set_bit : FdSet → ℕ → FdSet
set_bit set fd k = if k == fd then true else set k

unfoldable pub clear_bit : FdSet → ℕ → FdSet
clear_bit set fd k = if k == fd then false else set k

-- `pollset__t` with the table that is its user value; `min` starts as INT_MAX, and `count` and the
-- sets that select() leaves have no value before the first wait.
pub record PollSet : Type 0 where
  pub read : FdSet
  pub write : FdSet
  pub except : FdSet
  pub sread : FdSet
  pub swrite : FdSet
  pub sexcept : FdSet
  pub min : ℕ
  pub max : ℕ
  pub count : ℕ
  pub idx : ℕ
  pub uservalue : ℕ → Option Value

unfoldable pub toevent : ℕ → ℕ → PollSet → PollSet
toevent c fd s =
    if c == b'r'
    then record s { read = set_bit s.read fd }
    else if c == b'w'
    then record s { write = set_bit s.write fd }
    else if c == b'p'
    then record s { except = set_bit s.except fd }
    else s

unfoldable pub pollset_toevents : List ℕ → ℕ → PollSet → PollSet
pollset_toevents [] fd s = s
pollset_toevents (c ∷ flags) fd s = pollset_toevents flags fd (toevent c fd s)

pub record Report : Type 0 where
  pub read : Bool
  pub write : Bool
  pub priority : Bool

unfoldable pub pollset_pushevents : PollSet → ℕ → Report
pollset_pushevents s fd = record { read = s.read fd; write = s.write fd; priority = s.except fd }

abbrev pub Event : Type 0
Event = Report × Option Value

-- Whether select() has left the descriptor in one of its sets.
unfoldable pub is_left : PollSet → ℕ → Bool
is_left s fd = s.sread fd || s.swrite fd || s.sexcept fd

-- The loop from `count` on, for `n` descriptors: up to `max` there are `max + 1 - count`.
unfoldable pub next_loop : PollSet → ℕ → ℕ → Option Event × ℕ
next_loop s count zero = (none, count)
next_loop s count (suc n) =
    let later = next_loop s (suc count) n in
    if is_left s count
    then (some (pollset_pushevents s count, s.uservalue count), suc count)
    else later

unfoldable pub pollset_next : PollSet → Option Event × PollSet
pollset_next s =
    let r = next_loop s s.count (s.max + 1 - s.count) in (r.0, record s { count = r.1 })

unfoldable pub pollset_lua : PollSet → PollSet
pollset_lua uninitialised = record uninitialised {
  read = no_fds;
  write = no_fds;
  except = no_fds;
  idx = 0;
  min = 2147483647;
  max = 0;
  uservalue = λ _. none;
}

unfoldable pub polllua___len : PollSet → ℕ
polllua___len s = s.idx

-- A descriptor that is in range for the code, at a place that the sets have or not.
unfoldable pub inserted : PollSet → ℕ → List ℕ → Option Value → PollSet
inserted s fh flags obj =
    let t = pollset_toevents flags fh (record s {
      min = if ltb fh s.min then fh else s.min;
      max = if ltb s.max fh then fh else s.max;
    }) in
    record t {
      uservalue = settable t.uservalue fh (some (obj_or_fd fh obj));
      idx = (t.idx + 1) % 2 ^ 64;
    }

unfoldable pub insert_at : PollSet → ℤ → List ℕ → Option Value → Outcome (ℕ × PollSet)
insert_at s (negsuc n) flags obj = stop undefined
insert_at s (pos fh) flags obj =
    if ltb fd_setsize fh
    then ok (einval, s)
    else if ltb fh fd_setsize
    then ok (0, inserted s fh flags obj)
    else stop undefined

unfoldable pub polllua_insert : PollSet → Option ℤ → List ℕ → Option Value → Outcome (ℕ × PollSet)
polllua_insert s none flags obj = ok (einval, s)
polllua_insert s (some fh) flags obj = insert_at s fh flags obj

unfoldable pub cleared : PollSet → ℕ → PollSet
cleared s fh = record s {
  read = clear_bit s.read fh;
  write = clear_bit s.write fh;
  except = clear_bit s.except fh;
}

unfoldable pub polllua_update : PollSet → Option ℤ → List ℕ → Outcome (ℕ × PollSet)
polllua_update s none flags = ok (einval, s)
polllua_update s (some (negsuc n)) flags = stop undefined
polllua_update s (some (pos fh)) flags =
    if ltb fh fd_setsize then ok (0, pollset_toevents flags fh (cleared s fh)) else stop undefined

unfoldable pub is_watched : PollSet → ℕ → Bool
is_watched s fh = s.read fh || s.write fh || s.except fh

unfoldable pub removed : PollSet → ℕ → PollSet
removed s fh = record (cleared s fh) {
  uservalue = settable s.uservalue fh none;
  idx = (s.idx + (2 ^ 64 - 1)) % 2 ^ 64;
}

unfoldable pub polllua_remove : PollSet → Option ℤ → Outcome (ℕ × PollSet)
polllua_remove s none = ok (einval, s)
polllua_remove s (some (negsuc n)) = stop undefined
polllua_remove s (some (pos fh)) =
    if ltb fh fd_setsize
    then if is_watched s fh then ok (0, removed s fh) else ok (einval, s)
    else stop undefined

-- select() fails with an error number, and says nothing of the sets; or it leaves in each set the
-- descriptors that are ready, and gives their number.
pub data Selected : Type 0 where
  failed : ℕ → FdSet → FdSet → FdSet → Selected
  selected : ℕ → FdSet → FdSet → FdSet → Selected

pub data Waited : Type 0 where
  waited : Bool → Waited
  wait_error : ℕ → Waited

unfoldable pub polllua_wait : PollSet → Selected → Waited × PollSet
polllua_wait s (failed e r w x) =
    (wait_error e, record s { sread = r; swrite = w; sexcept = x; count = 0 })
polllua_wait s (selected events r w x) =
    (waited (events == 0), record s { sread = r; swrite = w; sexcept = x; count = 0 })

-- All that a loop over the iterator sees.
unfoldable pub polllua_events : ℕ → PollSet → List Event
polllua_events zero s = []
polllua_events (suc fuel) s =
    let r = pollset_next s in
    elim r.0 as (λ _. List Event) [ none ↦ [] | some event ↦ event ∷ polllua_events fuel r.1 ]
