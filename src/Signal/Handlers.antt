-- ===== src/Signal/Handlers.antt =====
-- The handlers of src/signal.c, version for POSIX: `m_handlers`, `m_signal`, and what the module asks
-- of the Lua state and of the system.
pub mod Ownership
pub mod Delivery
pub mod Results
use lua_conmanorg.Bsearch.{Entry}
use lua_conmanorg.Signal.Names.{
  FlagArg, slua_tosignal, slua_toflags, sa_nodefer, sa_siginfo, sa_resethand,
}
use lua_conmanorg.Signal.Sets.{SigSet, sigemptyset, sigaddset, sig_unblock, nsig}
use lua_conmanorg.Signal.Info.{SigInfo}
use lua_conmanorg.Prelude.{
  ℕ, zero, suc, ◌+◌, ◌==◌, ◌&&◌, ◌||◌, not, Bool, true, false, if◌then◌else◌, List, [], ◌∷◌, Option,
  none, some, bit_and, bit_or, Outcome, ok, stop, Stop, out_of_fuel, ◌>>=◌,
}

-- `struct datasig`; LUA_NOREF and NULL are `none`. No entry of `info` has a meaning until it is set.
pub record DataSig : Type 0 where
  pub name : Option (List ℕ)
  pub fref : Option ℕ
  pub triggered : Bool
  pub blocked : SigSet
  pub info : SigInfo
  pub use_info : Bool

-- What the system does on a signal: SIG_DFL, SIG_IGN, or one of the two handlers with the mask and
-- the flags of `struct sigaction`.
pub data Disposition : Type 0 where
  sig_dfl : Disposition
  sig_ign : Disposition
  signal_handler : SigSet → ℕ → Disposition
  signal_action : SigSet → ℕ → Disposition

-- The variables of the module, whether the hook of the Lua state is `luasigbackend`, the signals that
-- the process blocks, the references that the module has in the registry, and the dispositions.
pub record Signals : Type 0 where
  pub m_handlers : ℕ → DataSig
  pub m_signal : Bool
  pub hooked : Bool
  pub mask : SigSet
  pub registry : ℕ → Bool
  pub sigaction : ℕ → Disposition

unfoldable pub write {ℓ} : {A : Type ℓ} → (ℕ → A) → ℕ → A → ℕ → A
write f n a k = if k == n then a else f k

-- luaL_unref(), which does nothing with LUA_NOREF; and luaL_ref(), which gives the number.
unfoldable pub unref : (ℕ → Bool) → Option ℕ → ℕ → Bool
unref registry none = registry
unref registry (some ref) = write registry ref false

unfoldable pub take_ref : (ℕ → Bool) → Option ℕ → ℕ → Bool
take_ref registry none = registry
take_ref registry (some ref) = write registry ref true

unfoldable pub no_info : SigInfo → DataSig
no_info info = record {
  name = none;
  fref = none;
  triggered = false;
  blocked = sigemptyset;
  info = info;
  use_info = false;
}

-- The handlers that the system calls: `signal_handler` has no information.
unfoldable pub noted : DataSig → Option SigInfo → DataSig
noted d none = record d { triggered = true }
noted d (some info) = record d { info = info; triggered = true }

-- The system resets a disposition with SA_RESETHAND when it delivers the signal.
unfoldable pub delivered : Disposition → Disposition
delivered sig_dfl = sig_dfl
delivered sig_ign = sig_ign
delivered (signal_handler mask n) =
    if bit_and n sa_resethand == 0 then signal_handler mask n else sig_dfl
delivered (signal_action mask n) =
    if bit_and n sa_resethand == 0 then signal_action mask n else sig_dfl

-- The signals that sigprocmask() adds to the mask are blocked until the handler returns, when the
-- system restores the mask.
unfoldable pub on_signal : Signals → ℕ → Option SigInfo → Signals
on_signal s sig info = record s {
  m_handlers = write s.m_handlers sig (noted (s.m_handlers sig) info);
  m_signal = true;
  hooked = true;
  sigaction = write s.sigaction sig (delivered (s.sigaction sig));
}

-- `signal.caught`: whether a number from `i` on, for `n` numbers, was triggered, and the handlers
-- after that.
unfoldable pub caught_loop : ℕ → ℕ → Bool → (ℕ → DataSig) → Bool × (ℕ → DataSig)
caught_loop i zero caught handlers = (caught, handlers)
caught_loop i (suc n) caught handlers =
    caught_loop (suc i) n (caught || (handlers i).triggered)
      (write handlers i (record (handlers i) { triggered = false }))

unfoldable pub siglua_caught_any : Signals → Bool × Signals
siglua_caught_any s =
    let r = caught_loop 1 64 false s.m_handlers in (r.0, record s { m_handlers = r.1 })

unfoldable pub siglua_caught_one : Signals → ℕ → Bool × Signals
siglua_caught_one s sig =
    let d = s.m_handlers sig in
    (d.triggered, record s { m_handlers = write s.m_handlers sig (record d { triggered = false }) })

unfoldable pub siglua_caught : Signals → Option (List ℕ) → Outcome (Bool × Signals)
siglua_caught s none = ok (siglua_caught_any s)
siglua_caught s (some name) = slua_tosignal name >>= λ e. ok (siglua_caught_one s e.value)

-- The third and the fourth argument of `signal.catch`: a set of signals, or what may name flags.
pub data CatchArg : Type 0 where
  set : SigSet → CatchArg
  flags : FlagArg → CatchArg

-- `act.sa_mask` with `ds.blocked`, and `act.sa_flags`.
pub record Act : Type 0 where
  pub sa_mask : SigSet
  pub blocked : SigSet
  pub sa_flags : ℕ

unfoldable pub catch_arg : Act → CatchArg → Outcome Act
catch_arg act (set s) = ok (record act { sa_mask = s; blocked = s })
catch_arg act (flags f) =
    slua_toflags f >>= λ n. ok (record act { sa_flags = bit_or act.sa_flags n })

unfoldable pub catch_args : CatchArg → CatchArg → Outcome Act
catch_args a3 a4 =
    catch_arg (record { sa_mask = sigemptyset; blocked = sigemptyset; sa_flags = 0 }) a3 >>= λ act.
    catch_arg act a4

unfoldable pub wants_info : Act → Bool
wants_info act = bit_and act.sa_flags sa_siginfo == sa_siginfo

unfoldable pub blocked_of : Act → ℕ → SigSet
blocked_of act sig =
    if bit_and act.sa_flags sa_nodefer == 0 then sigaddset act.blocked sig else act.blocked

unfoldable pub disposition_of : Act → Disposition
disposition_of act =
    if wants_info act
    then signal_action act.sa_mask act.sa_flags
    else signal_handler act.sa_mask act.sa_flags

-- The new handler; `stale` stands in the `info` that is not set.
unfoldable pub new_handler : Entry → Option ℕ → SigInfo → Act → DataSig
new_handler e fref stale act = record {
  name = some e.text;
  fref = fref;
  triggered = false;
  blocked = blocked_of act e.value;
  info = stale;
  use_info = wants_info act;
}

-- The call of sigaction() with what it says: an error number, or nothing.
unfoldable pub install :
    Signals → Entry → Option ℕ → SigInfo → Act → Option ℕ → (Bool × ℕ) × Signals
install s e fref stale act (some errno) =
    let ods = s.m_handlers e.value in
    let replaced = write s.m_handlers e.value (new_handler e fref stale act) in
    (
      (false, errno),
      record s { m_handlers = write replaced e.value ods; registry = unref s.registry fref },
    )
install s e fref stale act none = (
  (true, 0),
  record s {
    m_handlers = write s.m_handlers e.value (new_handler e fref stale act);
    registry = unref s.registry (s.m_handlers e.value).fref;
    sigaction = write s.sigaction e.value (disposition_of act);
  },
)

-- An error that is raised keeps what the call has done, which is a reference at most. `fref` is the
-- reference that luaL_ref() gives, where there is a function.
unfoldable pub catch_with :
    Signals → Entry → Option ℕ → SigInfo → Outcome Act → Option ℕ → Outcome (Bool × ℕ) × Signals
catch_with s e fref stale (stop x) result = (stop x, s)
catch_with s e fref stale (ok act) result =
    let r = install s e fref stale act result in (ok r.0, r.1)

unfoldable pub catch_entry :
    Signals
    → Outcome Entry
    → Option ℕ
    → SigInfo
    → CatchArg
    → CatchArg
    → Option ℕ
    → Outcome (Bool × ℕ) × Signals
catch_entry s (stop x) fref stale a3 a4 result = (stop x, s)
catch_entry s (ok e) fref stale a3 a4 result =
    catch_with (record s { registry = take_ref s.registry fref }) e fref stale (catch_args a3 a4)
      result

unfoldable pub siglua_catch :
    Signals
    → List ℕ
    → Option ℕ
    → SigInfo
    → CatchArg
    → CatchArg
    → Option ℕ
    → Outcome (Bool × ℕ) × Signals
siglua_catch s name fref stale a3 a4 result =
    catch_entry s (slua_tosignal name) fref stale a3 a4 result

-- `signal.ignore` and `signal.default`, whose call of sigaction() may be refused.
unfoldable pub released : Signals → Disposition → Bool → ℕ → Signals
released s d refused sig = record s {
  m_handlers = write s.m_handlers sig (no_info (s.m_handlers sig).info);
  registry = unref s.registry (s.m_handlers sig).fref;
  sigaction = if refused then s.sigaction else write s.sigaction sig d;
}

unfoldable pub release_all :
    Disposition → (ℕ → Bool) → Signals → List (List ℕ) → Outcome (Unit {0}) × Signals
release_all d refuses s [] = (ok tt, s)
release_all d refuses s (name ∷ rest) =
    elim (slua_tosignal name) as (λ _. Outcome (Unit {0}) × Signals) [
      | stop x ↦ (stop x, s)
      | ok e ↦ release_all d refuses (released s d (refuses e.value) e.value) rest
    ]

unfoldable pub siglua_ignore : (ℕ → Bool) → Signals → List (List ℕ) → Outcome (Unit {0}) × Signals
siglua_ignore refuses s names = release_all sig_ign refuses s names

unfoldable pub siglua_default : (ℕ → Bool) → Signals → List (List ℕ) → Outcome (Unit {0}) × Signals
siglua_default refuses s names = release_all sig_dfl refuses s names

-- What a Lua handler is called with: its reference, the name, and the information if it wants it.
pub record Call : Type 0 where
  pub function : ℕ
  pub name : Option (List ℕ)
  pub info : Option SigInfo

unfoldable pub call_of : DataSig → ℕ → Call
call_of d fref = record {
  function = fref;
  name = d.name;
  info = if d.use_info then some d.info else none;
}

-- `lua` runs a Lua function, which may change anything: the module's state and a state of its own.
-- The set that is unblocked afterwards is read after the call.
module _ {ℓ} {W : Type ℓ} (lua : Call → Signals × W → Signals × W) where
  unfoldable pub unblocked : ℕ → Signals × W → Signals × W
  unblocked i (s, w) = (record s { mask = sig_unblock s.mask (s.m_handlers i).blocked }, w)

  unfoldable pub run_handler : ℕ → Option ℕ → Signals × W → Signals × W
  run_handler i none (s, w) = (s, w)
  run_handler i (some fref) (s, w) =
      let d = s.m_handlers i in
      let cleared = record s {
        m_handlers = write s.m_handlers i (record d { triggered = false });
      } in
      unblocked i (lua (call_of d fref) (cleared, w))

  unfoldable pub serve : ℕ → Signals × W → Signals × W
  serve i (s, w) =
      if (s.m_handlers i).triggered then run_handler i (s.m_handlers i).fref (s, w) else (s, w)

  unfoldable pub serve_all : ℕ → ℕ → Signals × W → Signals × W
  serve_all i zero p = p
  serve_all i (suc n) p = serve_all (suc i) n (serve i p)

  unfoldable pub backend_loop : ℕ → Signals × W → Outcome (Signals × W)
  backend_loop zero p = stop out_of_fuel
  backend_loop (suc fuel) (s, w) =
      let round = backend_loop fuel (serve_all 0 nsig (record s { m_signal = false }, w)) in
      if s.m_signal then round else ok (s, w)

  unfoldable pub luasigbackend : ℕ → Signals × W → Outcome (Signals × W)
  luasigbackend fuel (s, w) = backend_loop fuel (record s { hooked = false }, w)

-- The handlers that luaopen_org_conman_signal() makes.
unfoldable pub luaopen_org_conman_signal : Signals → Signals
luaopen_org_conman_signal s = record s { m_handlers = λ i. no_info (s.m_handlers i).info }
