-- ===== src/Signal/Tests.antt =====
-- The theorems about signals at examples.
use lua_conmanorg.Bsearch.{bsearch_by, first_equal, is_partitioned, row, bsearch, strcmp}
use lua_conmanorg.Signal.Names.{flag, slua_toflags, found_or_error, slua_tosignal, text, nil}
use lua_conmanorg.Signal.Sets.{
  set_names, SigSet, is_signal, sigemptyset, sigaddset, can_block, siglua_set, sigsetmeta___add,
  sigsetmeta___sub, sigsetmeta___unm,
}
use lua_conmanorg.Signal.Sets.Operations.{named, from_full, sets-operations, siglua_set-named}
use lua_conmanorg.Signal.Info.{SigInfo}
use lua_conmanorg.Signal.Handlers.{
  install, catch_arg, catch_with, catch_entry, Signals, sig_dfl, on_signal, siglua_catch, Call, Act,
  CatchArg, flags, catch_args, luaopen_org_conman_signal, no_info,
}
use lua_conmanorg.Signal.Handlers.Ownership.{WellFormed}
use lua_conmanorg.Signal.Handlers.Ownership.Reached.{
  Reachable, opened, step, catch, signal, Reachable-WellFormed_signals,
}
use lua_conmanorg.Signal.Handlers.Results.{Unchanged, catch-Unchanged}
use lua_conmanorg.Signal.Masks.{siglua_block, siglua_allow, siglua_mask}
use lua_conmanorg.Signal.Masks.Blocked.{blocked-named}
use lua_conmanorg.Prelude.{
  ℕ, ◌≡◌, refl, true, false, ◌&&◌, ◌||◌, not, if◌then◌else◌, List, [], ◌∷◌, none, some, codes, pos,
  ok, stop, lua_error,
}

hup_found : slua_tosignal (codes "hup") ≡ ok (row "hup" 1)
unfolding slua_tosignal bsearch is_partitioned first_equal strcmp found_or_error bsearch_by
hup_found = refl

abbrev hup_only : SigSet
hup_only = sigaddset sigemptyset 1

sets-operations_example :
    (sigsetmeta___add hup_only sigemptyset 1 ≡ (hup_only 1 || sigemptyset 1))
    × (sigsetmeta___sub hup_only sigemptyset 1 ≡ (hup_only 1 && not (sigemptyset 1)))
    × (sigsetmeta___unm hup_only 1 ≡ not (hup_only 1))
unfolding is_signal
sets-operations_example = sets-operations hup_only sigemptyset 1 refl

abbrev names : List (List ℕ)
names = codes "hup" ∷ []

siglua_set-named_example :
    sigaddset sigemptyset 1 1 ≡ (if from_full none then not (named names 1) else named names 1)
unfolding is_signal siglua_set set_names slua_tosignal bsearch is_partitioned first_equal strcmp
    found_or_error bsearch_by
siglua_set-named_example = siglua_set-named none names 1 {s = sigaddset sigemptyset 1} refl refl

abbrev info : SigInfo
info = record {
  si_signo = 17;
  si_errno = 0;
  si_code = pos 1;
  si_addr = 0;
  si_band = pos 0;
  si_pid = 100;
  si_uid = 0;
  si_status = 1;
}

abbrev strsignal : ℕ → List ℕ
strsignal n = codes "Hangup"

abbrev before : Signals
before = record {
  m_handlers = λ i. no_info info;
  m_signal = false;
  hooked = false;
  mask = sigemptyset;
  registry = λ r. false;
  sigaction = λ i. sig_dfl;
}

abbrev new : Signals
new = luaopen_org_conman_signal before

abbrev no_flags : CatchArg
no_flags = flags nil

abbrev caught : Signals
caught = (siglua_catch new (codes "hup") (some 7) info no_flags no_flags none).1

catches :
    siglua_catch new (codes "hup") (some 7) info no_flags no_flags none ≡ (ok (true, 0), caught)
unfolding siglua_catch luaopen_org_conman_signal catch_entry slua_tosignal bsearch is_partitioned
    first_equal strcmp found_or_error catch_with catch_args catch_arg slua_toflags install
    bsearch_by
catches = refl

abbrev noted : Signals
noted = on_signal caught 1 none

caught_Reachable : Reachable caught
unfolding luaopen_org_conman_signal
caught_Reachable =
    step (opened before (λ r. refl))
      (catch (codes "hup") (some 7) info no_flags no_flags none (true, 0) refl catches)

Reachable-WellFormed_signals_example : WellFormed noted
Reachable-WellFormed_signals_example =
    Reachable-WellFormed_signals (step caught_Reachable (signal 1 none))

-- Each call is put in front of the ones before it.
abbrev listed : Call → List Call → List Call
listed c calls = c ∷ calls

abbrev no_act : Act
no_act = record { sa_mask = sigemptyset; blocked = sigemptyset; sa_flags = 0 }

no_flags_act : catch_args no_flags no_flags ≡ ok no_act
unfolding catch_args catch_arg slua_toflags
no_flags_act = refl

catch-Unchanged_example :
    (t : Signals) × (siglua_catch new (codes "hup") (some 7) info no_flags no_flags (some 22)
      ≡ (ok (false, 22), t))
    × Unchanged new t
unfolding luaopen_org_conman_signal
catch-Unchanged_example =
    catch-Unchanged new (codes "hup") (some 7) info no_flags no_flags 22 (row "hup" 1) no_act refl
      hup_found no_flags_act

abbrev wrong : CatchArg
wrong = flags (text (codes "no"))

wrong_flags : catch_args wrong no_flags ≡ stop (lua_error "flag '%s' not supported" (codes "no"))
unfolding catch_args catch_arg slua_toflags flag bsearch is_partitioned first_equal strcmp
    found_or_error bsearch_by
wrong_flags = refl

blocked-named_example :
    (siglua_block sigemptyset names ≡ ok hup_only
      → hup_only 1 ≡ (sigemptyset 1 || (named names 1 && can_block 1)))
    × (siglua_allow sigemptyset names ≡ ok hup_only
        → hup_only 1 ≡ (sigemptyset 1 && not (named names 1)))
unfolding is_signal
blocked-named_example = blocked-named sigemptyset names 1 {t = hup_only} refl

abbrev blocked : SigSet
blocked = (siglua_mask sigemptyset (some (codes "block")) hup_only).1
