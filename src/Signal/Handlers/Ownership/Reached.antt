-- ===== src/Signal/Handlers/Ownership/Reached.antt =====
-- The references in the registry after any calls of src/signal.c.
use lua_conmanorg.Signal.Handlers.{
  Signals, write, no_info, on_signal, siglua_caught, CatchArg, siglua_catch, siglua_ignore,
  siglua_default, Call, call_of, unblocked, run_handler, serve, serve_all, backend_loop,
  luasigbackend, luaopen_org_conman_signal, sig_ign, sig_dfl,
}
use lua_conmanorg.Signal.Names.{slua_tosignal}
use lua_conmanorg.Signal.Sets.{nsig}
use lua_conmanorg.Signal.Info.{SigInfo}
use lua_conmanorg.Prelude.{
  ok_inj, ℕ, zero, suc, ◌≡◌, inl, inr, refl, sym, ap, subst, ◌∙◌, Bool, false, if◌then◌else◌, List,
  Option, none, some, ok, Bool-cases, arith,
}
use lua_conmanorg.Signal.Handlers.Ownership.{Fresh, same-Owned, WellFormed}
use lua_conmanorg.Signal.Handlers.Ownership.Calls.{
  on_signal-WellFormed, release_all-WellFormed, catch_entry-WellFormed, siglua_caught-WellFormed,
}

-- A Lua function that keeps the references in order, which is all that is asked of one.
abbrev pub KeepsOwners {ℓ} : {W : Type ℓ} → (Call → Signals × W → Signals × W) → Type ℓ
KeepsOwners {W = W} lua =
    (c : Call) (s : Signals) (w : W) → WellFormed s → WellFormed (lua c (s, w)).0

module _ {ℓ} {W : Type ℓ} (lua : Call → Signals × W → Signals × W) (keeps : KeepsOwners lua) where
  run_handler-WellFormed :
      (i : ℕ) (o : Option ℕ) (s : Signals) (w : W)
      → WellFormed s
      → WellFormed (run_handler lua i o (s, w)).0
  unfolding run_handler unblocked write
  run_handler-WellFormed i none s w h = h
  run_handler-WellFormed i (some fref) s w h =
      let d = s.m_handlers i in
      let cleared : Signals = record s {
        m_handlers = write s.m_handlers i (record d { triggered = false });
      } in
      keeps (call_of d fref) cleared w (same-Owned (λ k. ground arith) (λ r. refl) h)

  serve-WellFormed : (i : ℕ) (p : Signals × W) → WellFormed p.0 → WellFormed (serve lua i p).0
  unfolding serve
  serve-WellFormed i (s, w) h = elim (Bool-cases (s.m_handlers i).triggered) [
    | inl now ↦ rw now (run_handler-WellFormed i (s.m_handlers i).fref s w h)
    | inr not_now ↦ rw not_now h
  ]

  serve_all-WellFormed :
      (i n : ℕ) (p : Signals × W) → WellFormed p.0 → WellFormed (serve_all lua i n p).0
  unfolding serve_all
  serve_all-WellFormed i zero p h = h
  serve_all-WellFormed i (suc n) p h =
      serve_all-WellFormed (suc i) n (serve lua i p) (serve-WellFormed i p h)

  backend_loop-WellFormed :
      (fuel : ℕ) (p : Signals × W) {q : Signals × W}
      → WellFormed p.0
      → backend_loop lua fuel p ≡ ok q
      → WellFormed q.0
  unfolding backend_loop
  backend_loop-WellFormed zero p h e = cc
  backend_loop-WellFormed (suc fuel) (s, w) h e = elim (Bool-cases s.m_signal) [
    | inl more ↦
        let round =
          backend_loop lua fuel (serve_all lua 0 nsig (record s { m_signal = false }, w)) in
        backend_loop-WellFormed fuel (serve_all lua 0 nsig (record s { m_signal = false }, w))
          (serve_all-WellFormed 0 nsig (record s { m_signal = false }, w) h)
          (sym (ap (λ b. if b then round else ok (s, w)) more) ∙ e)
    | inr done ↦
        let round =
          backend_loop lua fuel (serve_all lua 0 nsig (record s { m_signal = false }, w)) in
        subst (λ q. WellFormed q.0)
          (ok_inj (sym (ap (λ b. if b then round else ok (s, w)) done) ∙ e)) h
  ]

-- What happens to the module: a call that does not end in an error, a signal whose handler the system
-- calls, or the hook, which calls Lua functions.
pub data Step : Signals → Signals → Type 1 where
  catch :
      {s s' : Signals} (name : List ℕ) (fref : Option ℕ) (stale : SigInfo) (a3 a4 : CatchArg)
      (result : Option ℕ) (r : Bool × ℕ)
      → Fresh s.registry fref
      → siglua_catch s name fref stale a3 a4 result ≡ (ok r, s')
      → Step s s'
  ignore :
      {s : Signals} (refuses : ℕ → Bool) (names : List (List ℕ))
      → Step s (siglua_ignore refuses s names).1
  default :
      {s : Signals} (refuses : ℕ → Bool) (names : List (List ℕ))
      → Step s (siglua_default refuses s names).1
  caught :
      {s s' : Signals} (name : Option (List ℕ)) (b : Bool)
      → siglua_caught s name ≡ ok (b, s')
      → Step s s'
  signal : {s : Signals} (sig : ℕ) (info : Option SigInfo) → Step s (on_signal s sig info)
  hook :
      {s : Signals} {W : Type 0} (lua : Call → Signals × W → Signals × W) (fuel : ℕ) (w : W)
      (p : Signals × W)
      → KeepsOwners lua
      → luasigbackend lua fuel (s, w) ≡ ok p
      → Step s p.0

pub data Reachable : Signals → Type 1 where
  opened :
      (s : Signals) → ((r : ℕ) → s.registry r ≡ false) → Reachable (luaopen_org_conman_signal s)
  step : {s s' : Signals} → Reachable s → Step s s' → Reachable s'

opened-WellFormed :
    (s : Signals) → ((r : ℕ) → s.registry r ≡ false) → WellFormed (luaopen_org_conman_signal s)
unfolding luaopen_org_conman_signal no_info
opened-WellFormed s nothing = record {
  live = λ i r e. cc;
  apart = λ i j r e f. cc;
  owner = λ r e. ground (arith, nothing r);
}

Step-WellFormed : {s s' : Signals} → WellFormed s → Step s s' → WellFormed s'
unfolding siglua_catch siglua_ignore siglua_default luasigbackend
Step-WellFormed {s = s} w (catch name fref stale a3 a4 result r f p) =
    catch_entry-WellFormed s (slua_tosignal name) fref stale a3 a4 result w f p
Step-WellFormed {s = s} w (ignore refuses names) = release_all-WellFormed sig_ign refuses s names w
Step-WellFormed {s = s} w (default refuses names) = release_all-WellFormed sig_dfl refuses s names w
Step-WellFormed {s = s} w (caught name b p) = siglua_caught-WellFormed s name w p
Step-WellFormed {s = s} w (signal sig info) = on_signal-WellFormed s sig info w
Step-WellFormed {s = s} w (hook lua fuel v p keeps e) =
    backend_loop-WellFormed lua keeps fuel (record s { hooked = false }, v) w e

-- After any calls that do not end in an error, any signals and any runs of the hook, whose Lua
-- functions keep to this too, the registry has exactly the functions of the handlers, and no two
-- handlers share one: no reference is lost, and none is used after it was given back.
pub Reachable-WellFormed_signals : {s : Signals} → Reachable s → WellFormed s
Reachable-WellFormed_signals (opened s nothing) = opened-WellFormed s nothing
Reachable-WellFormed_signals (step r t) = Step-WellFormed (Reachable-WellFormed_signals r) t
