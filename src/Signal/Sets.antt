-- ===== src/Signal/Sets.antt =====
-- The sets of signals of src/signal.c.
pub mod Operations
use lua_conmanorg.Bsearch.{Entry}
use lua_conmanorg.Signal.Names.{slua_tosignal}
use lua_conmanorg.Prelude.{
  ℕ, zero, suc, ◌+◌, ltb, ◌==◌, ◌&&◌, ◌||◌, Bool, true, false, not, if◌then◌else◌, List, [], ◌∷◌,
  Option, none, some, Outcome, ok, ◌>>=◌,
}

-- `sigset_t`: which signals it has.
abbrev pub SigSet : Type 0
SigSet = ℕ → Bool

abbrev pub nsig : ℕ
nsig = 65

-- The functions of <signal.h>. Those that change a set refuse a number that is no signal's, and the
-- two signals that the thread library keeps.
unfoldable pub is_signal : ℕ → Bool
is_signal n = ltb 0 n && ltb n nsig && not (n == 32) && not (n == 33)

unfoldable pub sigemptyset : SigSet
sigemptyset k = false

unfoldable pub sigfillset : SigSet
sigfillset k = is_signal k

unfoldable pub sigaddset : SigSet → ℕ → SigSet
sigaddset set n k = if is_signal n && k == n then true else set k

unfoldable pub sigdelset : SigSet → ℕ → SigSet
sigdelset set n k = if is_signal n && k == n then false else set k

-- As a condition: an error, which is -1, is true.
unfoldable pub sigismember : SigSet → ℕ → Bool
sigismember set n = if ltb 0 n && ltb n nsig then set n else true

-- sigprocmask() with SIG_BLOCK, SIG_UNBLOCK and SIG_SETMASK: SIGKILL and SIGSTOP are never blocked.
unfoldable pub can_block : ℕ → Bool
can_block k = not (k == 9) && not (k == 19)

unfoldable pub sig_block : SigSet → SigSet → SigSet
sig_block mask set k = mask k || (set k && can_block k)

unfoldable pub sig_unblock : SigSet → SigSet → SigSet
sig_unblock mask set k = mask k && not (set k)

unfoldable pub sig_setmask : SigSet → SigSet → SigSet
sig_setmask mask set k = set k && can_block k

-- The names of `signal.set`, `signal.allow` and `signal.block`, each put in or taken out.
unfoldable pub set_names : (SigSet → ℕ → SigSet) → SigSet → List (List ℕ) → Outcome SigSet
set_names setsig set [] = ok set
set_names setsig set (name ∷ rest) =
    slua_tosignal name >>= λ e. set_names setsig (setsig set e.value) rest

-- The first argument may be a Boolean.
unfoldable pub siglua_set : Option Bool → List (List ℕ) → Outcome SigSet
siglua_set none names = set_names sigaddset sigemptyset names
siglua_set (some true) names = set_names sigdelset sigfillset names
siglua_set (some false) names = set_names sigaddset sigemptyset names

unfoldable pub sigsetmeta___index : SigSet → List ℕ → Outcome Bool
sigsetmeta___index set name = slua_tosignal name >>= λ e. ok (sigismember set e.value)

unfoldable pub sigsetmeta___newindex : SigSet → List ℕ → Bool → Outcome SigSet
sigsetmeta___newindex sig name true = slua_tosignal name >>= λ e. ok (sigaddset sig e.value)
sigsetmeta___newindex sig name false = slua_tosignal name >>= λ e. ok (sigdelset sig e.value)

-- The loops from the number `i` on, for `n` numbers.
unfoldable pub add_loop : SigSet → ℕ → ℕ → SigSet → SigSet
add_loop s2 i zero d = d
add_loop s2 i (suc n) d = add_loop s2 (suc i) n (if sigismember s2 i then sigaddset d i else d)

unfoldable pub sub_loop : SigSet → ℕ → ℕ → SigSet → SigSet
sub_loop s2 i zero d = d
sub_loop s2 i (suc n) d = sub_loop s2 (suc i) n (if sigismember s2 i then sigdelset d i else d)

unfoldable pub unm_loop : SigSet → ℕ → ℕ → SigSet → SigSet
unm_loop s i zero d = d
unm_loop s i (suc n) d =
    unm_loop s (suc i) n (if sigismember s i then sigdelset d i else sigaddset d i)

unfoldable pub sigsetmeta___add : SigSet → SigSet → SigSet
sigsetmeta___add s1 s2 = add_loop s2 0 nsig s1

unfoldable pub sigsetmeta___sub : SigSet → SigSet → SigSet
sigsetmeta___sub s1 s2 = sub_loop s2 0 nsig s1

unfoldable pub sigsetmeta___unm : SigSet → SigSet
sigsetmeta___unm s = unm_loop s 0 nsig s
