-- ===== src/Signal/Handlers/Ownership/Calls.antt =====
-- The references in the registry after one call of src/signal.c.
use lua_conmanorg.Signal.Handlers.{
  DataSig, Disposition, Signals, write, unref, take_ref, no_info, noted, on_signal, caught_loop,
  siglua_caught_any, siglua_caught_one, siglua_caught, CatchArg, Act, new_handler, install,
  catch_with, catch_entry, catch_args, released, release_all,
}
use lua_conmanorg.Bsearch.{Entry}
use lua_conmanorg.Signal.Names.{slua_tosignal}
use lua_conmanorg.Signal.Info.{SigInfo}
use lua_conmanorg.Prelude.{
  ok_inj, ◌||◌, ℕ, zero, suc, ◌≡◌, refl, ap, subst, Bool, false, List, [], ◌∷◌, Option, none, some,
  Outcome, ok, stop, ◌>>=◌, arith,
}
use lua_conmanorg.Signal.Handlers.Ownership.{Fresh, replaced-Owned, same-Owned, frefs, WellFormed}

pub on_signal-WellFormed :
    (s : Signals) (sig : ℕ) (info : Option SigInfo)
    → WellFormed s
    → WellFormed (on_signal s sig info)
unfolding on_signal noted write
on_signal-WellFormed s sig none w = same-Owned (λ i. ground arith) (λ r. refl) w
on_signal-WellFormed s sig (some info) w = same-Owned (λ i. ground arith) (λ r. refl) w

caught_loop-frefs :
    (i n : ℕ) (caught : Bool) (handlers : ℕ → DataSig) (k : ℕ)
    → frefs (caught_loop i n caught handlers).1 k ≡ frefs handlers k
unfolding caught_loop write
caught_loop-frefs i zero caught handlers k = refl
caught_loop-frefs i (suc n) caught handlers k =
    let next = write handlers i (record (handlers i) { triggered = false }) in
    ground (arith, caught_loop-frefs (suc i) n (caught || (handlers i).triggered) next k)

released-WellFormed :
    (s : Signals) (d : Disposition) (refused : Bool) (sig : ℕ)
    → WellFormed s
    → WellFormed (released s d refused sig)
unfolding released no_info write unref take_ref
released-WellFormed s d refused sig w =
    same-Owned (λ i. ground arith) (λ r. refl)
      (replaced-Owned (frefs s.m_handlers) s.registry sig none w tt)

release_next :
    (d : Disposition) (refuses : ℕ → Bool) (s : Signals) (names : List (List ℕ)) (o : Outcome Entry)
    → WellFormed s
    → ((t : Signals) → WellFormed t → WellFormed (release_all d refuses t names).1)
    → WellFormed
        (elim o as (λ _. Outcome (Unit {0}) × Signals) [
          | stop x ↦ (stop x, s)
          | ok e ↦ release_all d refuses (released s d (refuses e.value) e.value) names
        ]).1
release_next d refuses s names (stop x) w again = w
release_next d refuses s names (ok e) w again =
    again _ (released-WellFormed s d (refuses e.value) e.value w)

pub release_all-WellFormed :
    (d : Disposition) (refuses : ℕ → Bool) (s : Signals) (names : List (List ℕ))
    → WellFormed s
    → WellFormed (release_all d refuses s names).1
unfolding release_all
release_all-WellFormed d refuses s [] w = w
release_all-WellFormed d refuses s (name ∷ names) w =
    release_next d refuses s names (slua_tosignal name) w
      (λ t. release_all-WellFormed d refuses t names)

install-WellFormed :
    (s : Signals) (e : Entry) (fref : Option ℕ) (stale : SigInfo) (act : Act) (result : Option ℕ)
    → WellFormed s
    → Fresh s.registry fref
    → WellFormed
        (install (record s { registry = take_ref s.registry fref }) e fref stale act result).1
unfolding install new_handler write unref take_ref
install-WellFormed s e fref stale act none w f =
    same-Owned (λ i. ground arith) (λ r. refl)
      (replaced-Owned (frefs s.m_handlers) s.registry e.value fref w f)
install-WellFormed s e fref stale act (some errno) w f =
    same-Owned (λ i. ground arith) (λ r. ground arith) w

catch_with-WellFormed :
    (s : Signals) (e : Entry) (fref : Option ℕ) (stale : SigInfo) (act : Outcome Act)
    (result : Option ℕ) {s' : Signals} {r : Bool × ℕ}
    → WellFormed s
    → Fresh s.registry fref
    → catch_with (record s { registry = take_ref s.registry fref }) e fref stale act result
      ≡ (ok r, s')
    → WellFormed s'
unfolding catch_with
catch_with-WellFormed s e fref stale (stop x) result w f p = cc
catch_with-WellFormed s e fref stale (ok act) result w f p =
    subst WellFormed (ap (λ q. q.1) p) (install-WellFormed s e fref stale act result w f)

pub catch_entry-WellFormed :
    (s : Signals) (o : Outcome Entry) (fref : Option ℕ) (stale : SigInfo) (a3 a4 : CatchArg)
    (result : Option ℕ) {s' : Signals} {r : Bool × ℕ}
    → WellFormed s
    → Fresh s.registry fref
    → catch_entry s o fref stale a3 a4 result ≡ (ok r, s')
    → WellFormed s'
unfolding catch_entry
catch_entry-WellFormed s (stop x) fref stale a3 a4 result w f p = cc
catch_entry-WellFormed s (ok e) fref stale a3 a4 result w f p =
    catch_with-WellFormed s e fref stale (catch_args a3 a4) result w f p

caught-WellFormed :
    (s : Signals) (o : Outcome Entry) {b : Bool} {s' : Signals}
    → WellFormed s
    → (o >>= λ e. ok (siglua_caught_one s e.value)) ≡ ok (b, s')
    → WellFormed s'
unfolding siglua_caught_one write
caught-WellFormed s (stop x) w p = cc
caught-WellFormed s (ok e) w p =
    subst WellFormed (ap (λ q. q.1) (ok_inj p)) (same-Owned (λ i. ground arith) (λ r. refl) w)

pub siglua_caught-WellFormed :
    (s : Signals) (name : Option (List ℕ)) {b : Bool} {s' : Signals}
    → WellFormed s
    → siglua_caught s name ≡ ok (b, s')
    → WellFormed s'
unfolding siglua_caught siglua_caught_any
siglua_caught-WellFormed s none w p =
    subst WellFormed (ap (λ q. q.1) (ok_inj p))
      (same-Owned (caught_loop-frefs 1 64 false s.m_handlers) (λ r. refl) w)
siglua_caught-WellFormed s (some name) w p = caught-WellFormed s (slua_tosignal name) w p
