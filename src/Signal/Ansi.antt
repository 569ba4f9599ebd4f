-- ===== src/Signal/Ansi.antt =====
-- The version of src/signal.c for ANSI C alone, with the numbers of the six signals on Linux.
pub mod First
mod Tests
use lua_conmanorg.Bsearch.{Entry, row, bsearch}
use lua_conmanorg.Signal.Names.{found_or_error, is_found}
use lua_conmanorg.Signal.Handlers.{write, unref, take_ref}
use lua_conmanorg.Prelude.{
  ℕ, zero, suc, ◌==◌, ◌||◌, Bool, true, false, if◌then◌else◌, List, [], ◌∷◌, Option, none, some,
  get_or, ltb, Outcome, ok, stop, out_of_fuel, assert, ◌>>=◌, ◌>>◌,
}

abbrev pub max_sig : ℕ
max_sig = 6

abbrev pub m_sigvalue : List ℕ
m_sigvalue = 6 ∷ 8 ∷ 4 ∷ 2 ∷ 11 ∷ 15 ∷ []

abbrev pub sigs : List Entry
sigs =
    row "abort" 0
    ∷ row "abrt" 0
    ∷ row "fpe" 1
    ∷ row "ill" 2
    ∷ row "illegal" 2
    ∷ row "int" 3
    ∷ row "interrupt" 3
    ∷ row "segfault" 4
    ∷ row "segv" 4
    ∷ row "term" 5
    ∷ row "terminate" 5
    ∷ []

unfoldable pub slua_tosignal : List ℕ → Outcome Entry
slua_tosignal name = bsearch name sigs >>= found_or_error "signal '%s' not supported" name

pub record DataSig : Type 0 where
  pub name : Option (List ℕ)
  pub fref : Option ℕ
  pub triggered : Bool

pub data Disposition : Type 0 where
  sig_dfl : Disposition
  sig_ign : Disposition
  handler : Disposition

-- As for POSIX, without a mask: the dispositions are by the system's numbers, the handlers are not.
pub record Signals : Type 0 where
  pub m_handlers : ℕ → DataSig
  pub m_signal : Bool
  pub hooked : Bool
  pub registry : ℕ → Bool
  pub disposition : ℕ → Disposition

-- The index of a signal's number, or `MAX_SIG`.
unfoldable pub index_of : List ℕ → ℕ → ℕ
index_of [] sig = 0
index_of (v ∷ rest) sig = let later = index_of rest sig in if v == sig then 0 else suc later

unfoldable pub signal_handler : Signals → ℕ → Outcome Signals
signal_handler s sig =
    let isig = index_of m_sigvalue sig in
    assert (ltb isig max_sig)
    >> ok (record s {
      m_handlers = write s.m_handlers isig (record (s.m_handlers isig) { triggered = true });
      m_signal = true;
      hooked = true;
      disposition = write s.disposition sig handler;
    })

unfoldable pub caught_loop : ℕ → ℕ → Bool → (ℕ → DataSig) → Bool × (ℕ → DataSig)
caught_loop i zero caught handlers = (caught, handlers)
caught_loop i (suc n) caught handlers =
    caught_loop (suc i) n (caught || (handlers i).triggered)
      (write handlers i (record (handlers i) { triggered = false }))

unfoldable pub caught_one : Signals → ℕ → Bool × Signals
caught_one s sig =
    let d = s.m_handlers sig in
    (d.triggered, record s { m_handlers = write s.m_handlers sig (record d { triggered = false }) })

unfoldable pub siglua_caught : Signals → Option (List ℕ) → Outcome (Bool × Signals)
siglua_caught s none =
    let r = caught_loop 0 max_sig false s.m_handlers in ok (r.0, record s { m_handlers = r.1 })
siglua_caught s (some name) = slua_tosignal name >>= λ e. ok (caught_one s e.value)

-- The call of signal() is refused, or it is not. The error number is EINVAL.
unfoldable pub install : Signals → Entry → Option ℕ → Bool → (Bool × ℕ) × Signals
install s e fref refused =
    let ods = s.m_handlers e.value in
    let ds : DataSig = record { name = some e.text; fref = fref; triggered = false } in
    let replaced = write s.m_handlers e.value ds in
    if refused
    then (
      (false, 22),
      record s { m_handlers = write replaced e.value ods; registry = unref s.registry fref },
    )
    else (
      (true, 0),
      record s {
        m_handlers = replaced;
        registry = unref s.registry ods.fref;
        disposition = write s.disposition (get_or m_sigvalue e.value 0) handler;
      },
    )

unfoldable pub siglua_catch : Signals → List ℕ → Option ℕ → Bool → Outcome ((Bool × ℕ) × Signals)
siglua_catch s name fref refused = slua_tosignal name >>= λ e.
    ok (install (record s { registry = take_ref s.registry fref }) e fref refused)

unfoldable pub released : Disposition → Signals → ℕ → Signals
released d s sig = record s {
  m_handlers = write s.m_handlers sig (record { name = none; fref = none; triggered = false });
  registry = unref s.registry (s.m_handlers sig).fref;
  disposition = write s.disposition (get_or m_sigvalue sig 0) d;
}

-- The loop of `signal.ignore` and of `signal.default`, once for each argument: each round reads the
-- first one.
unfoldable pub release_loop : Disposition → Signals → List ℕ → List (List ℕ) → Outcome Signals
release_loop d s first [] = ok s
release_loop d s first (name ∷ rest) =
    slua_tosignal first >>= λ e. release_loop d (released d s e.value) first rest

unfoldable pub release : Disposition → Signals → List (List ℕ) → Outcome Signals
release d s [] = ok s
release d s (name ∷ rest) = release_loop d s name (name ∷ rest)

unfoldable pub siglua_ignore : Signals → List (List ℕ) → Outcome Signals
siglua_ignore s names = release sig_ign s names

unfoldable pub siglua_default : Signals → List (List ℕ) → Outcome Signals
siglua_default s names = release sig_dfl s names

unfoldable pub siglua_raise : (ℕ → Bool) → List ℕ → Outcome Bool
siglua_raise raise name = slua_tosignal name >>= λ e. ok (raise (get_or m_sigvalue e.value 0))

unfoldable pub siglua_defined : List ℕ → Outcome Bool
siglua_defined name = bsearch name sigs >>= λ o. ok (is_found o)

-- `lua` runs a Lua function with the name of the signal, and may change anything.
module _ {ℓ} {W : Type ℓ} (lua : ℕ → Option (List ℕ) → Signals × W → Signals × W) where
  unfoldable pub run_handler : ℕ → Option ℕ → Signals × W → Signals × W
  run_handler i none (s, w) = (s, w)
  run_handler i (some fref) (s, w) =
      let d = s.m_handlers i in
      lua fref d.name
        (record s { m_handlers = write s.m_handlers i (record d { triggered = false }) }, w)

  unfoldable pub serve : ℕ → Signals × W → Signals × W
  serve i (s, w) =
      if (s.m_handlers i).triggered then run_handler i (s.m_handlers i).fref (s, w) else (s, w)

  unfoldable pub serve_all : ℕ → ℕ → Signals × W → Signals × W
  serve_all i zero p = p
  serve_all i (suc n) p = serve_all (suc i) n (serve i p)

  unfoldable pub backend_loop : ℕ → Signals × W → Outcome (Signals × W)
  backend_loop zero p = stop out_of_fuel
  backend_loop (suc fuel) (s, w) =
      let round = backend_loop fuel (serve_all 0 max_sig (record s { m_signal = false }, w)) in
      if s.m_signal then round else ok (s, w)

  unfoldable pub luasigbackend : ℕ → Signals × W → Outcome (Signals × W)
  luasigbackend fuel (s, w) = backend_loop fuel (record s { hooked = false }, w)

unfoldable pub luaopen_org_conman_signal : Signals → Signals
luaopen_org_conman_signal s = record s {
  m_handlers = λ i. record { name = none; fref = none; triggered = false };
}
