-- ===== src/Pollset/Epoll.antt =====
-- The set of src/pollset.c on epoll: POLLSET_IMPL_EPOLL.
pub mod Kernel
pub mod Members
pub mod Invariant
pub mod Iteration
mod Tests
use lua_conmanorg.Pollset.Poll.{Value, einval, settable, obj_or_fd}
use lua_conmanorg.Pollset.Epoll.Kernel.{
  Ready, Op, ctl_add, ctl_mod, ctl_del, Awaited, wait_failed, got, Epoll,
}
use lua_conmanorg.Prelude.{
  ℕ, zero, suc, ◌+◌, ◌-◌, ◌%◌, ◌^◌, ◌<◌, ltb, ◌==◌, Bool, true, false, not, if◌then◌else◌, Option,
  none, some, List, [], ◌∷◌, length, get_elem?, ℤ, pos, negsuc, bit_and, bit_or, Outcome, ok, stop,
  undefined, ◌>>=◌,
}

-- The bits of <sys/epoll.h>.
abbrev pub epollin : ℕ
epollin = 0x01

abbrev pub epollpri : ℕ
epollpri = 0x02

abbrev pub epollout : ℕ
epollout = 0x04

abbrev pub epollerr : ℕ
epollerr = 0x08

abbrev pub epollhup : ℕ
epollhup = 0x10

unfoldable pub toevents_from : ℕ → List ℕ → ℕ
toevents_from events [] = events
toevents_from events (c ∷ flags) =
    if c == b'r'
    then toevents_from (bit_or events epollin) flags
    else if c == b'w'
    then toevents_from (bit_or events epollout) flags
    else if c == b'p'
    then toevents_from (bit_or events epollpri) flags
    else toevents_from events flags

unfoldable pub pollset_toevents : List ℕ → ℕ
pollset_toevents flags = toevents_from 0 flags

pub record Report : Type 0 where
  pub read : Bool
  pub write : Bool
  pub priority : Bool
  pub error : Bool
  pub hangup : Bool

unfoldable pub pollset_pushevents : ℕ → Report
pollset_pushevents events = record {
  read = not (bit_and events epollin == 0);
  write = not (bit_and events epollout == 0);
  priority = not (bit_and events epollpri == 0);
  error = not (bit_and events epollerr == 0);
  hangup = not (bit_and events epollhup == 0);
}

abbrev pub Event : Type 0
Event = Report × Option Value

-- `pollset__t` with its user value. `efh` is the kernel's state behind the descriptor; `list` is the
-- part of the array that epoll_wait() has filled, or `none` for NULL.
pub record PollSet (K : Type 0) : Type 0 where
  pub efh : K
  pub idx : ℕ
  pub list : Option (List Ready)
  pub max : ℤ
  pub count : ℕ
  pub uservalue : ℕ → Option Value

-- `count < max` on integers.
unfoldable pub less_than : ℕ → ℤ → Bool
less_than count (pos max) = ltb count max
less_than count (negsuc n) = false

unfoldable pub event_of : (ℕ → Option Value) → Option Ready → Outcome Event
event_of table none = stop undefined
event_of table (some r) = ok (pollset_pushevents r.events, table r.fd)

-- `set->list[i]`; a read of NULL has no defined result.
unfoldable pub list_at : Option (List Ready) → ℕ → Option Ready
list_at none i = none
list_at (some list) i = get_elem? list i

module _ {K : Type 0} where
  unfoldable pub pollset_next : PollSet K → Outcome (Option Event × PollSet K)
  pollset_next s =
      if less_than s.count s.max
      then (event_of s.uservalue (list_at s.list s.count) >>= λ event.
          ok (some event, record s { count = s.count + 1 }))
      else ok (none, record s { list = none })

  -- A loop over `polllua_events`.
  unfoldable pub polllua_events : ℕ → PollSet K → Outcome (List Event)
  polllua_events zero s = ok []
  polllua_events (suc fuel) s = pollset_next s >>= λ r. elim r.0 as (λ _. Outcome (List Event)) [
    | none ↦ ok []
    | some event ↦ polllua_events fuel r.1 >>= λ more. ok (event ∷ more)
  ]

  -- After epoll_create().
  unfoldable pub pollset_lua : K → PollSet K
  pollset_lua efh = record {
    efh = efh;
    idx = 0;
    list = none;
    max = pos 0;
    count = 0;
    uservalue = λ _. none;
  }

  unfoldable pub polllua___len : PollSet K → ℕ
  polllua___len s = s.idx

pub data Waited : Type 0 where
  waited : Bool → Waited
  wait_error : ℕ → Waited

module _ {K : Type 0} where
  -- The results are an error number, 0 for none, and the set; `size_t` wraps.
  unfoldable pub added : PollSet K → ℕ → Option Value → K × Option ℕ → ℕ × PollSet K
  added s fh obj (k, some e) = (e, record s { efh = k })
  added s fh obj (k, none) = (
    0,
    record s {
      efh = k;
      idx = (s.idx + 1) % 2 ^ 64;
      uservalue = settable s.uservalue fh (some (obj_or_fd fh obj));
    },
  )

  -- `errno` is 0 before the call.
  unfoldable pub modified : PollSet K → K × Option ℕ → ℕ × PollSet K
  modified s (k, some e) = (e, record s { efh = k })
  modified s (k, none) = (0, record s { efh = k })

  unfoldable pub deleted : PollSet K → ℕ → K × Option ℕ → ℕ × PollSet K
  deleted s fh (k, some e) = (e, record s { efh = k })
  deleted s fh (k, none) = (
    0,
    record s {
      efh = k;
      idx = (s.idx + (2 ^ 64 - 1)) % 2 ^ 64;
      uservalue = settable s.uservalue fh none;
    },
  )

  unfoldable pub awaited : PollSet K → K × Awaited → Waited × PollSet K
  awaited s (k, wait_failed e) =
      (wait_error e, record s { efh = k; list = none; max = negsuc 0; count = 0 })
  awaited s (k, got list) = (
    waited (length list == 0),
    record s { efh = k; list = some list; max = pos (length list); count = 0 },
  )

module _ {K : Type 0} (epoll : Epoll K) where
  unfoldable pub polllua_insert : PollSet K → Option ℕ → List ℕ → Option Value → ℕ × PollSet K
  polllua_insert s none flags obj = (einval, s)
  polllua_insert s (some fh) flags obj =
      added s fh obj (epoll.epoll_ctl s.efh ctl_add fh (pollset_toevents flags))

  unfoldable pub polllua_update : PollSet K → Option ℕ → List ℕ → ℕ × PollSet K
  polllua_update s none flags = (einval, s)
  polllua_update s (some fh) flags =
      modified s (epoll.epoll_ctl s.efh ctl_mod fh (pollset_toevents flags))

  -- `event` is not set here, and epoll does not read it.
  unfoldable pub polllua_remove : PollSet K → Option ℕ → ℕ × PollSet K
  polllua_remove s none = (einval, s)
  polllua_remove s (some fh) = deleted s fh (epoll.epoll_ctl s.efh ctl_del fh 0)

  -- `memory` is an error number where calloc() fails.
  unfoldable pub polllua_wait : PollSet K → Option ℕ → Waited × PollSet K
  polllua_wait s memory =
      if ltb 0 s.idx
      then elim memory as (λ _. Waited × PollSet K) [
        | some e ↦ (wait_error e, record s { list = none; max = negsuc 0; count = 0 })
        | none ↦ awaited s (epoll.epoll_wait s.efh s.idx)
      ]
      else (waited true, record s { list = none; max = pos 0; count = 0 })

module _ {K : Type 0} where
  -- The state after close(); `gone` is the descriptor -1.
  unfoldable pub polllua___gc : K → PollSet K → PollSet K
  polllua___gc gone s = record s { efh = gone; list = none }
