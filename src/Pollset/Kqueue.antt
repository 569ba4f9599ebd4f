-- ===== src/Pollset/Kqueue.antt =====
-- The set of src/pollset.c on kqueue: POLLSET_IMPL_KQUEUE. The kernel's queue is a parameter.
pub mod Iterator
mod Tests
use lua_conmanorg.Pollset.Poll.{Value, integer, einval, settable}
use lua_conmanorg.Prelude.{
  ℕ, zero, suc, ◌+◌, ◌-◌, ◌%◌, ◌^◌, ltb, ◌==◌, ◌||◌, ◌&&◌, not, Bool, true, false, if◌then◌else◌,
  Option, none, some, List, [], ◌∷◌, length, get_elem?, ℤ, pos, negsuc, bit_and, bit_or, Outcome,
  ok, stop, undefined, ◌>>=◌,
}

pub data Filter : Type 0 where
  evfilt_read : Filter
  evfilt_write : Filter

-- `struct kevent`, as far as the code fills and reads it.
pub record Kevent : Type 0 where
  pub ident : ℕ
  pub filter : Filter
  pub flags : ℕ
  pub filter_data : ℕ

-- The bits of <sys/event.h>.
abbrev pub ev_add : ℕ
ev_add = 0x0001

abbrev pub ev_delete : ℕ
ev_delete = 0x0002

abbrev pub ev_enable : ℕ
ev_enable = 0x0004

abbrev pub ev_disable : ℕ
ev_disable = 0x0008

abbrev pub ev_ooband : ℕ
ev_ooband = 0x2000

abbrev pub ev_eof : ℕ
ev_eof = 0x8000

-- What kevent() says: an error number, or the events that it has stored.
pub data Awaited : Type 0 where
  wait_failed : ℕ → Awaited
  got : List Kevent → Awaited

-- kevent() with two changes, and kevent() with room for a number of events.
pub record Kqueue (K : Type 0) : Type 0 where
  pub change : K → Kevent → Kevent → K × Option ℕ
  pub await : K → ℕ → K × Awaited

unfoldable pub has_flag : ℕ → List ℕ → Bool
has_flag c [] = false
has_flag c (f ∷ flags) = (f == c) || has_flag c flags

-- The flags of the two filters, before and after.
unfoldable pub pollset_toevents : List ℕ → ℕ → ℕ × ℕ
pollset_toevents flags before = (
  bit_or before (if has_flag b'r' flags || has_flag b'p' flags then ev_enable else ev_disable),
  bit_or before (if has_flag b'w' flags then ev_enable else ev_disable),
)

pub record Report : Type 0 where
  pub priority : Bool
  pub read : Bool
  pub write : Bool
  pub hangup : Bool

abbrev is_read : Filter → Bool
is_read evfilt_read = true
is_read evfilt_write = false

unfoldable pub pollset_pushevents : Kevent → Report
pollset_pushevents event =
    let read = is_read event.filter in
    let pri = not (bit_and event.flags ev_ooband == 0) in
    record {
      priority = read && pri;
      read = read && not pri;
      write = not read;
      hangup = not (bit_and event.flags ev_eof == 0);
    }

-- `pollset__t` with the table that is its user value; `list` has the events that were stored, and is
-- `none` for NULL. A set that was closed has no queue.
pub record PollSet (K : Type 0) : Type 0 where
  pub qfh : K
  pub idx : ℕ
  pub list : Option (List Kevent)
  pub max : ℤ
  pub count : ℕ
  pub uservalue : ℕ → Option Value

abbrev pub Event : Type 0
Event = Report × Option Value

unfoldable pub less_than : ℕ → ℤ → Bool
less_than count (pos max) = ltb count max
less_than count (negsuc n) = false

-- Where there is no element, C says nothing.
unfoldable pub element : Option (List Kevent) → ℕ → Option Kevent
element none count = none
element (some list) count = get_elem? list count

unfoldable pub filters : ℕ → ℕ → ℕ → ℕ × ℕ → Kevent × Kevent
filters fh backlog other flags = (
  record { ident = fh; filter = evfilt_read; flags = flags.0; filter_data = backlog },
  record { ident = fh; filter = evfilt_write; flags = flags.1; filter_data = other },
)

pub data Waited : Type 0 where
  waited : Bool → Waited
  wait_error : ℕ → Waited

-- An object that is not given is the number 4.
unfoldable pub obj_or_four : Option Value → Value
obj_or_four none = integer 4
obj_or_four (some obj) = obj

unfoldable pub error_of : Option ℕ → ℕ
error_of none = 0
error_of (some e) = e

module _ {K : Type 0} where
  unfoldable pub event_at : PollSet K → Option Kevent → Outcome (Option Event × PollSet K)
  event_at s none = stop undefined
  event_at s (some e) =
      ok (some (pollset_pushevents e, s.uservalue e.ident), record s { count = s.count + 1 })

  unfoldable pub pollset_next : PollSet K → Outcome (Option Event × PollSet K)
  pollset_next s =
      if less_than s.count s.max
      then event_at s (element s.list s.count)
      else ok (none, record s { list = none })

  unfoldable pub pollset_lua : K → PollSet K
  pollset_lua qfh = record {
    qfh = qfh;
    idx = 0;
    list = none;
    max = pos 0;
    count = 0;
    uservalue = λ _. none;
  }

  unfoldable pub polllua___len : PollSet K → ℕ
  polllua___len s = s.idx

  -- The set after the queue has taken the changes, or an error number and the queue.
  unfoldable pub inserted : PollSet K → ℕ → Option Value → K × Option ℕ → ℕ × PollSet K
  inserted s fh obj (k, some e) = (e, record s { qfh = k })
  inserted s fh obj (k, none) = (
    0,
    record s {
      qfh = k;
      uservalue = settable s.uservalue fh (some (obj_or_four obj));
      idx = (s.idx + 1) % 2 ^ 64;
    },
  )

  unfoldable pub removed : PollSet K → ℕ → K × Option ℕ → ℕ × PollSet K
  removed s fh (k, some e) = (e, record s { qfh = k })
  removed s fh (k, none) = (
    0,
    record s {
      qfh = k;
      uservalue = settable s.uservalue fh none;
      idx = (s.idx + (2 ^ 64 - 1)) % 2 ^ 64;
    },
  )

  unfoldable pub awaited : PollSet K → K × Awaited → Waited × PollSet K
  awaited s (k, wait_failed e) =
      (wait_error e, record s { qfh = k; list = none; max = negsuc 0; count = 0 })
  awaited s (k, got list) = (
    waited (length list == 0),
    record s { qfh = k; list = some list; max = pos (length list); count = 0 },
  )

  module _ (queue : Kqueue K) where
    -- The backlog is read from the place where the descriptor stands.
    unfoldable pub polllua_insert : PollSet K → Option ℕ → List ℕ → Option Value → ℕ × PollSet K
    polllua_insert s none flags obj = (einval, s)
    polllua_insert s (some fh) flags obj =
        let f = filters fh fh 0 (pollset_toevents flags ev_add) in
        inserted s fh obj (queue.change s.qfh f.0 f.1)

    unfoldable pub polllua_update : PollSet K → Option ℕ → List ℕ → ℕ × PollSet K
    polllua_update s none flags = (einval, s)
    polllua_update s (some fh) flags =
        let f = filters fh 0 0 (pollset_toevents flags ev_add) in
        let r = queue.change s.qfh f.0 f.1 in (error_of r.1, record s { qfh = r.0 })

    unfoldable pub polllua_remove : PollSet K → Option ℕ → ℕ × PollSet K
    polllua_remove s none = (einval, s)
    polllua_remove s (some fh) =
        let f = filters fh 0 0 (ev_delete, ev_delete) in removed s fh (queue.change s.qfh f.0 f.1)

    -- `no_memory` is the error number where calloc() fails.
    unfoldable pub with_memory : PollSet K → Option ℕ → Waited × PollSet K
    with_memory s none = awaited s (queue.await s.qfh s.idx)
    with_memory s (some e) = (wait_error e, record s { list = none; max = negsuc 0; count = 0 })

    unfoldable pub polllua_wait : PollSet K → Option ℕ → Waited × PollSet K
    polllua_wait s no_memory =
        if ltb 0 s.idx
        then with_memory s no_memory
        else (waited true, record s { max = pos 0; count = 0 })

  -- A loop over the iterator.
  unfoldable pub seen :
      (PollSet K → Outcome (List Event)) → Outcome (Option Event × PollSet K) → Outcome (List Event)
  seen more (stop x) = stop x
  seen more (ok (none, s)) = ok []
  seen more (ok (some event, s)) = more s >>= λ events. ok (event ∷ events)

  unfoldable pub polllua_events : ℕ → PollSet K → Outcome (List Event)
  polllua_events zero s = ok []
  polllua_events (suc fuel) s = seen (polllua_events fuel) (pollset_next s)
