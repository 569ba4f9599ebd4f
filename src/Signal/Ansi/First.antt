-- ===== src/Signal/Ansi/First.antt =====
-- Which signals a call of the ANSI version of src/signal.c changes, and what a signal notes.
use lua_conmanorg.Bsearch.{Entry}
use lua_conmanorg.Signal.Handlers.{write, unref}
use lua_conmanorg.Signal.Ansi.{
  m_sigvalue, max_sig, slua_tosignal, Disposition, Signals, index_of, signal_handler, released,
  release_loop, release, siglua_ignore, siglua_default, sig_ign, sig_dfl, handler,
}
use lua_conmanorg.Prelude.{
  lt→ltb, ℕ, zero, suc, ◌<◌, ◌≡◌, ◌≢◌, refl, true, List, [], ◌∷◌, get_or, ok, arith, Option, none,
  some, some_inj, Bool, false, ◌==◌, Bool-cases, inl, inr,
}

index_of-m_sigvalue : (k : ℕ) → k < max_sig → index_of m_sigvalue (get_or m_sigvalue k 0) ≡ k
unfolding index_of
index_of-m_sigvalue zero h = refl
index_of-m_sigvalue (suc zero) h = refl
index_of-m_sigvalue (suc (suc zero)) h = refl
index_of-m_sigvalue (suc (suc (suc zero))) h = refl
index_of-m_sigvalue (suc (suc (suc (suc zero)))) h = refl
index_of-m_sigvalue (suc (suc (suc (suc (suc zero))))) h = refl
index_of-m_sigvalue (suc (suc (suc (suc (suc (suc k)))))) h = absurd (omega arith)

-- A signal that the version knows is noted at its own index, no other handler changes, and the
-- assertion holds.
signal_handler-noted :
    (s : Signals) (k : ℕ)
    → k < max_sig
    → (t : Signals) × (signal_handler s (get_or m_sigvalue k 0) ≡ ok t)
      × ((t.m_handlers k).triggered ≡ true)
      × ((i : ℕ) → i ≢ k → t.m_handlers i ≡ s.m_handlers i)
      × (t.m_signal ≡ true)
      × (t.hooked ≡ true)
unfolding signal_handler index_of write
signal_handler-noted s k h = (
  record s {
    m_handlers = write s.m_handlers k (record (s.m_handlers k) { triggered = true });
    m_signal = true;
    hooked = true;
    disposition = write s.disposition (get_or m_sigvalue k 0) handler;
  },
  rw (index_of-m_sigvalue k h) (rw (lt→ltb k max_sig h) refl),
  ground arith,
  λ i other. ground arith,
  refl,
  refl,
)

-- One signal has lost its handler and has the disposition `d`; nothing else has changed but the
-- registry, which has lost the function of that signal.
pub record Only (d : Disposition) (sig : ℕ) (s t : Signals) : Type 0 where
  pub handler_gone : t.m_handlers sig ≡ record { name = none; fref = none; triggered = false }
  pub set_to : t.disposition (get_or m_sigvalue sig 0) ≡ d
  pub function_gone : (r : ℕ) → (s.m_handlers sig).fref ≡ some r → t.registry r ≡ false
  pub handlers : (i : ℕ) → i ≢ sig → t.m_handlers i ≡ s.m_handlers i
  pub dispositions : (v : ℕ) → v ≢ get_or m_sigvalue sig 0 → t.disposition v ≡ s.disposition v
  pub functions : (r : ℕ) → (s.m_handlers sig).fref ≢ some r → t.registry r ≡ s.registry r
  pub m_signal : t.m_signal ≡ s.m_signal
  pub hooked : t.hooked ≡ s.hooked

unref_gone : (registry : ℕ → Bool) (o : Option ℕ) (r : ℕ) → o ≡ some r → unref registry o r ≡ false
unfolding unref write
unref_gone registry none r e = absurd (ground arith)
unref_gone registry (some q) r e = ground (arith, some_inj e)

unref_other :
    (registry : ℕ → Bool) (o : Option ℕ) (r : ℕ) → o ≢ some r → unref registry o r ≡ registry r
unfolding unref write
unref_other registry none r h = refl
unref_other registry (some q) r h = elim (Bool-cases (r == q)) [
  | inl same ↦ absurd (h (ground arith))
  | inr other ↦ ground arith
]

released_first : (d : Disposition) (sig : ℕ) (s : Signals) → Only d sig s (released d s sig)
unfolding released write
released_first d sig s = record {
  handler_gone = ground arith;
  set_to = ground arith;
  function_gone = λ r e. unref_gone s.registry (s.m_handlers sig).fref r e;
  handlers = λ i h. ground arith;
  dispositions = λ v h. ground arith;
  functions = λ r h. unref_other s.registry (s.m_handlers sig).fref r h;
  m_signal = refl;
  hooked = refl;
}

-- A further round finds no function to release.
released-Only :
    (d : Disposition) (sig : ℕ) (s t : Signals) → Only d sig s t → Only d sig s (released d t sig)
unfolding released write unref
released-Only d sig s t o = rw o.handler_gone (record {
  handler_gone = ground arith;
  set_to = ground arith;
  function_gone = o.function_gone;
  handlers = λ i h. ground (arith, o.handlers i h);
  dispositions = λ v h. ground (arith, o.dispositions v h);
  functions = o.functions;
  m_signal = o.m_signal;
  hooked = o.hooked;
})

release_loop-Only :
    (d : Disposition) (s t : Signals) (name : List ℕ) (e : Entry) (names : List (List ℕ))
    → slua_tosignal name ≡ ok e
    → Only d e.value s t
    → (u : Signals) × (release_loop d t name names ≡ ok u) × Only d e.value s u
unfolding release_loop
release_loop-Only d s t name e [] p o = (t, refl, o)
release_loop-Only d s t name e (n ∷ names) p o =
    rw p
      (release_loop-Only d s (released d t e.value) name e names p (released-Only d e.value s t o))

release-first :
    (d : Disposition) (s : Signals) (name : List ℕ) (e : Entry) (names : List (List ℕ))
    → slua_tosignal name ≡ ok e
    → (t : Signals) × (release d s (name ∷ names) ≡ ok t) × Only d e.value s t
unfolding release release_loop
release-first d s name e names p =
    rw p (release_loop-Only d s (released d s e.value) name e names p (released_first d e.value s))

-- Whatever signals the other arguments of `signal.ignore` or `signal.default` name, and whether they
-- name any, the call ignores the first argument's signal or gives it back to the system, takes its handler
-- and its function away, and changes nothing else.
pub release-Only :
    (s : Signals) (name : List ℕ) (e : Entry) (names : List (List ℕ))
    → slua_tosignal name ≡ ok e
    → ((t : Signals) × (siglua_ignore s (name ∷ names) ≡ ok t) × Only sig_ign e.value s t)
      × ((t : Signals) × (siglua_default s (name ∷ names) ≡ ok t) × Only sig_dfl e.value s t)
unfolding siglua_ignore siglua_default
release-Only s name e names p =
    (release-first sig_ign s name e names p, release-first sig_dfl s name e names p)
