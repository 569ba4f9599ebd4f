-- ===== src/Signal/Handlers/Ownership.antt =====
-- Who owns the references in the registry of src/signal.c.
pub mod Calls
pub mod Reached
use lua_conmanorg.Signal.Handlers.{
  DataSig, Disposition, Signals, write, unref, take_ref, no_info, noted, on_signal, caught_loop,
  siglua_caught_any, siglua_caught_one, siglua_caught, CatchArg, Act, new_handler, install,
  catch_with, catch_entry, catch_args, siglua_catch, released, release_all, siglua_ignore,
  siglua_default, Call, call_of, unblocked, run_handler, serve, serve_all, backend_loop,
  luasigbackend, luaopen_org_conman_signal, sig_ign, sig_dfl,
}
use lua_conmanorg.Bsearch.{Entry}
use lua_conmanorg.Signal.Names.{slua_tosignal}
use lua_conmanorg.Signal.Sets.{nsig}
use lua_conmanorg.Signal.Info.{SigInfo}
use lua_conmanorg.Prelude.{
  ok_inj, ◌||◌, ℕ, zero, suc, ◌==◌, ◌≡◌, ◌≢◌, ◌⊎◌, inl, inr, refl, sym, ap, subst, ◌∙◌, Bool, true,
  false, if◌then◌else◌, List, [], ◌∷◌, Option, none, some, Outcome, ok, stop, ◌>>=◌, Bool-cases,
  Option-cases, arith,
}

-- A reference in a handler is in the registry, is in no other handler, and each reference that the
-- module has in the registry is in a handler.
pub record Owned (fref : ℕ → Option ℕ) (registry : ℕ → Bool) : Type 0 where
  pub live : (i r : ℕ) → fref i ≡ some r → registry r ≡ true
  pub apart : (i j r : ℕ) → fref i ≡ some r → fref j ≡ some r → i ≡ j
  pub owner : (r : ℕ) → registry r ≡ true → (i : ℕ) × (fref i ≡ some r)

-- luaL_ref() gives a reference that is not in use.
abbrev pub Fresh : (ℕ → Bool) → Option ℕ → Type 0
Fresh registry none = Unit {0}
Fresh registry (some r) = registry r ≡ false

-- The owner of a reference after a handler is replaced.
kept_owner :
    (fref : ℕ → Option ℕ) (registry : ℕ → Bool) (sig r : ℕ) (new : Option ℕ)
    → Owned fref registry
    → registry r ≡ true
    → unref registry (fref sig) r ≡ true
    → (i : ℕ) × (write fref sig new i ≡ some r)
unfolding write unref
kept_owner fref registry sig r new o e u = let i = o.owner r e in (i.0, ground (arith, i.1))

new_owner :
    (fref : ℕ → Option ℕ) (registry : ℕ → Bool) (sig r : ℕ) (new : Option ℕ)
    → Owned fref registry
    → unref (take_ref registry new) (fref sig) r ≡ true
    → (i : ℕ) × (write fref sig new i ≡ some r)
unfolding write unref take_ref
new_owner fref registry sig r none o e = kept_owner fref registry sig r none o (ground arith) e
new_owner fref registry sig r (some n) o e = elim (Bool-cases (r == n)) [
  | inl same ↦ (sig, ground arith)
  | inr other ↦ kept_owner fref registry sig r (some n) o (ground arith) (ground arith)
]

pub replaced-Owned :
    (fref : ℕ → Option ℕ) (registry : ℕ → Bool) (sig : ℕ) (new : Option ℕ)
    → Owned fref registry
    → Fresh registry new
    → Owned (write fref sig new) (unref (take_ref registry new) (fref sig))
unfolding write unref take_ref
replaced-Owned fref registry sig new o f = record {
  live = λ i r e. ground (arith, o.live i r, o.live sig r, o.apart i sig r);
  apart = λ i j r e g. ground (arith, o.live i r, o.live j r, o.apart i j r);
  owner = λ r e. new_owner fref registry sig r new o e;
}

pub same-Owned :
    {fref fref' : ℕ → Option ℕ} {registry registry' : ℕ → Bool}
    → ((i : ℕ) → fref' i ≡ fref i)
    → ((r : ℕ) → registry' r ≡ registry r)
    → Owned fref registry
    → Owned fref' registry'
same-Owned f g o = record {
  live = λ i r e. g r ∙ o.live i r (sym (f i) ∙ e);
  apart = λ i j r e h. o.apart i j r (sym (f i) ∙ e) (sym (f j) ∙ h);
  owner = λ r e. let i = o.owner r (sym (g r) ∙ e) in (i.0, f i.0 ∙ i.1);
}

abbrev pub frefs : (ℕ → DataSig) → ℕ → Option ℕ
frefs handlers i = (handlers i).fref

-- What holds of the module's references between two calls.
abbrev pub WellFormed : Signals → Type 0
WellFormed s = Owned (frefs s.m_handlers) s.registry
