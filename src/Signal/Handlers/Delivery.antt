-- ===== src/Signal/Handlers/Delivery.antt =====
-- What a run of the hook of src/signal.c does with the signals that were noted.
use lua_conmanorg.Signal.Handlers.{DataSig, Signals, Call, call_of}
use lua_conmanorg.Prelude.{
  ℕ, zero, suc, ◌+◌, ◌<◌, ◌≤◌, ◌≡◌, Bool, true, false, List, [], ◌∷◌, ◌++◌, Option, none, some,
}

-- Lua functions that change nothing in the module; each call does `act` to a state of their own.
unfoldable pub outside {ℓ} : {W : Type ℓ} → (Call → W → W) → Call → Signals × W → Signals × W
outside act c (s, w) = (s, act c w)

-- Calls one after another.
unfoldable pub performed {ℓ} : {W : Type ℓ} → (Call → W → W) → List Call → W → W
performed act [] w = w
performed act (c ∷ calls) w = performed act calls (act c w)

-- The calls that are due, by ascending numbers of the signals.
unfoldable pub due_call : Bool → Option ℕ → DataSig → List Call
due_call false o d = []
due_call true none d = []
due_call true (some r) d = call_of d r ∷ []

unfoldable pub due : ℕ → ℕ → (ℕ → DataSig) → List Call
due i zero handlers = []
due i (suc n) handlers =
    let d = handlers i in due_call d.triggered d.fref d ++ due (suc i) n handlers

-- What is left of `triggered`: a signal whose handler is no function stays noted for `signal.caught`.
unfoldable pub stays : Bool → Option ℕ → Bool
stays b none = b
stays b (some r) = false

-- The state after the handlers from `i` on, for `n` numbers.
record Served (i n : ℕ) (before after : Signals) : Type 0 where
  left :
      (k : ℕ)
      → i ≤ k
      → k < i + n
      → (after.m_handlers k).triggered
        ≡ stays (before.m_handlers k).triggered (before.m_handlers k).fref
  under : (k : ℕ) → k < i → after.m_handlers k ≡ before.m_handlers k
  above : (k : ℕ) → i + n ≤ k → after.m_handlers k ≡ before.m_handlers k
  functions : (k : ℕ) → (after.m_handlers k).fref ≡ (before.m_handlers k).fref
  quiet : after.m_signal ≡ before.m_signal
  unhooked : after.hooked ≡ before.hooked
