-- ===== src/Signal/Handlers/Results.antt =====
-- What the calls of src/signal.c give: `signal.caught`, and a `signal.catch` that fails.
use lua_conmanorg.Signal.Handlers.{
  DataSig, Signals, write, unref, take_ref, caught_loop, siglua_caught_any, CatchArg, Act, install,
  catch_with, catch_entry, catch_args, siglua_catch,
}
use lua_conmanorg.Signal.Handlers.Ownership.{Fresh, WellFormed}
use lua_conmanorg.Bsearch.{Entry}
use lua_conmanorg.Signal.Names.{slua_tosignal}
use lua_conmanorg.Signal.Info.{SigInfo}
use lua_conmanorg.Prelude.{
  ℕ, zero, suc, ◌+◌, ◌<◌, ◌≤◌, ◌==◌, ◌||◌, ◌≡◌, ◌≢◌, refl, ap, ◌∙◌, Bool, true, false, List, Option,
  none, some, ok, stop, Stop, Bool-cases, inl, inr, or_false, or_assoc, arith,
}

-- Whether one of the signals from `i` on, for `n` numbers, was noted.
unfoldable pub any_noted : ℕ → ℕ → (ℕ → DataSig) → Bool
any_noted i zero handlers = false
any_noted i (suc n) handlers =
    let later = any_noted (suc i) n handlers in (handlers i).triggered || later

any_noted-same :
    (i n : ℕ) (handlers other : ℕ → DataSig)
    → ((k : ℕ) → i ≤ k → (other k).triggered ≡ (handlers k).triggered)
    → any_noted i n other ≡ any_noted i n handlers
unfolding any_noted
any_noted-same i zero handlers other h = refl
any_noted-same i (suc n) handlers other h =
    rw (h i (omega arith))
      (rw (any_noted-same (suc i) n handlers other (λ k p. h k (omega arith))) refl)

caught_loop-noted :
    (i n : ℕ) (caught : Bool) (handlers : ℕ → DataSig)
    → (caught_loop i n caught handlers).0 ≡ (caught || any_noted i n handlers)
unfolding caught_loop any_noted write
caught_loop-noted i zero caught handlers = or_false caught
caught_loop-noted i (suc n) caught handlers =
    let next = write handlers i (record (handlers i) { triggered = false }) in
    caught_loop-noted (suc i) n (caught || (handlers i).triggered) next
    ∙ ap (λ b. (caught || (handlers i).triggered) || b)
        (any_noted-same (suc i) n handlers next (λ k p. ground arith))
    ∙ or_assoc caught (handlers i).triggered (any_noted (suc i) n handlers)

-- Only `triggered` changes, and only of the signals that are asked for.
caught_loop-cleared :
    (i n : ℕ) (caught : Bool) (handlers : ℕ → DataSig) (k : ℕ)
    → ((i ≤ k) → k < i + n → ((caught_loop i n caught handlers).1 k).triggered ≡ false)
      × (k < i → (caught_loop i n caught handlers).1 k ≡ handlers k)
unfolding caught_loop write
caught_loop-cleared i zero caught handlers k = (λ p q. absurd (omega arith), λ p. refl)
caught_loop-cleared i (suc n) caught handlers k =
    let next = write handlers i (record (handlers i) { triggered = false }) in
    let others = caught_loop-cleared (suc i) n (caught || (handlers i).triggered) next k in
    (
      λ p q. elim (Bool-cases (k == i)) [
        | inl same ↦ ground (arith, others.1)
        | inr later ↦ ground (arith, others.0)
      ],
      λ p. ground (arith, others.1),
    )

none_noted :
    (i n : ℕ) (handlers : ℕ → DataSig)
    → ((k : ℕ) → i ≤ k → k < i + n → (handlers k).triggered ≡ false)
    → any_noted i n handlers ≡ false
unfolding any_noted
none_noted i zero handlers h = refl
none_noted i (suc n) handlers h =
    rw (h i (omega arith) (omega arith))
      (none_noted (suc i) n handlers (λ k p q. h k (omega arith) (omega arith)))

-- `signal.caught` of no name says whether any signal was noted, and leaves none noted; so a second
-- call that follows gives `false`.
caught-any_noted :
    (s : Signals)
    → let r = siglua_caught_any s in
      (r.0 ≡ any_noted 1 64 s.m_handlers)
      × ((k : ℕ) → 0 < k → k < 65 → (r.1.m_handlers k).triggered ≡ false)
      × ((siglua_caught_any r.1).0 ≡ false)
unfolding siglua_caught_any
caught-any_noted s = (
  caught_loop-noted 1 64 false s.m_handlers,
  λ k p q. (caught_loop-cleared 1 64 false s.m_handlers k).0 p q,
  caught_loop-noted 1 64 false (caught_loop 1 64 false s.m_handlers).1
      ∙ none_noted 1 64 (caught_loop 1 64 false s.m_handlers).1
          (λ k p q. (caught_loop-cleared 1 64 false s.m_handlers k).0 p q),
)

-- What a call that the system refuses leaves.
pub record Unchanged (s t : Signals) : Type 0 where
  pub handlers : (i : ℕ) → t.m_handlers i ≡ s.m_handlers i
  pub registry : (r : ℕ) → t.registry r ≡ s.registry r
  pub sigaction : t.sigaction ≡ s.sigaction
  pub mask : t.mask ≡ s.mask

install-Unchanged :
    (s : Signals) (e : Entry) (fref : Option ℕ) (stale : SigInfo) (act : Act) (errno : ℕ)
    → Fresh s.registry fref
    → let r =
        install (record s { registry = take_ref s.registry fref }) e fref stale act (some errno) in
      (r.0 ≡ (false, errno)) × Unchanged s r.1
unfolding install write unref take_ref
install-Unchanged s e none stale act errno f = (
  refl,
  record { handlers = λ i. ground arith; registry = λ r. refl; sigaction = refl; mask = refl },
)
install-Unchanged s e (some ref) stale act errno f = (
  refl,
  record {
    handlers = λ i. ground arith;
    registry = λ r. ground arith;
    sigaction = refl;
    mask = refl;
  },
)

-- Where sigaction() fails, `signal.catch` gives `false` and the error number, and the handlers, the
-- references in the registry and the dispositions are those before the call.
pub catch-Unchanged :
    (s : Signals) (name : List ℕ) (fref : Option ℕ) (stale : SigInfo) (a3 a4 : CatchArg) (errno : ℕ)
    (e : Entry) (act : Act)
    → Fresh s.registry fref
    → slua_tosignal name ≡ ok e
    → catch_args a3 a4 ≡ ok act
    → (t : Signals) × (siglua_catch s name fref stale a3 a4 (some errno) ≡ (ok (false, errno), t))
      × Unchanged s t
unfolding siglua_catch catch_entry catch_with
catch-Unchanged s name fref stale a3 a4 errno e act f p q =
    let r = install-Unchanged s e fref stale act errno f in
    let t =
      (install (record s { registry = take_ref s.registry fref }) e fref stale act
        (some errno)).1 in
    (t, rw p (rw q (ap (λ b. (ok b, t)) r.0)), r.1)

-- Where the flags of `signal.catch` are wrong and there is a function, the call raises the error of
-- the flags, and a new reference stays in the registry that no handler has.
catch_leaks :
    (s : Signals) (name : List ℕ) (ref : ℕ) (stale : SigInfo) (a3 a4 : CatchArg) (result : Option ℕ)
    (e : Entry) (x : Stop)
    → WellFormed s
    → s.registry ref ≡ false
    → slua_tosignal name ≡ ok e
    → catch_args a3 a4 ≡ stop x
    → (t : Signals) × (siglua_catch s name (some ref) stale a3 a4 result ≡ (stop x, t))
      × (t.registry ref ≡ true)
      × ((i : ℕ) → (t.m_handlers i).fref ≢ some ref)
unfolding siglua_catch catch_entry catch_with take_ref write
catch_leaks s name ref stale a3 a4 result e x w f p q = (
  record s { registry = take_ref s.registry (some ref) },
  rw p (rw q refl),
  ground arith,
  λ i h. (let held = w.live i ref h in cc),
)
