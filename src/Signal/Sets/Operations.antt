-- ===== src/Signal/Sets/Operations.antt =====
-- The operations of the sets in src/signal.c are those of sets.
use lua_conmanorg.Signal.Sets.{
  SigSet, nsig, is_signal, sigemptyset, sigfillset, sigaddset, sigdelset, sigismember, set_names,
  siglua_set, add_loop, sub_loop, unm_loop, sigsetmeta___add, sigsetmeta___sub, sigsetmeta___unm,
}
use lua_conmanorg.Bsearch.{Entry}
use lua_conmanorg.Signal.Names.{slua_tosignal}
use lua_conmanorg.Prelude.{
  ◌>>=◌, stop, or_false, ℕ, zero, suc, ◌+◌, ltb, leb, ◌==◌, ◌&&◌, ◌||◌, ◌≡◌, refl, sym, ap, ◌∙◌,
  Bool, true, false, not, if◌then◌else◌, List, [], ◌∷◌, Option, none, some, Outcome, ok, arith,
}

-- A loop over the numbers from `i` on changes only what it has passed.
passed : ℕ → ℕ → ℕ → Bool
passed i n k = leb i k && ltb k (i + n)

add_loop-at :
    (s2 d : SigSet) (i n k : ℕ)
    → is_signal k ≡ true
    → add_loop s2 i n d k ≡ (d k || (passed i n k && s2 k))
unfolding add_loop passed sigismember sigaddset is_signal
add_loop-at s2 d i zero k h = ground arith
add_loop-at s2 d i (suc n) k h =
    ground (arith, add_loop-at s2 (if sigismember s2 i then sigaddset d i else d) (suc i) n k h)

sub_loop-at :
    (s2 d : SigSet) (i n k : ℕ)
    → is_signal k ≡ true
    → sub_loop s2 i n d k ≡ (d k && not (passed i n k && s2 k))
unfolding sub_loop passed sigismember sigdelset is_signal
sub_loop-at s2 d i zero k h = ground arith
sub_loop-at s2 d i (suc n) k h =
    ground (arith, sub_loop-at s2 (if sigismember s2 i then sigdelset d i else d) (suc i) n k h)

unm_loop-at :
    (s d : SigSet) (i n k : ℕ)
    → is_signal k ≡ true
    → unm_loop s i n d k ≡ (if passed i n k then not (s k) else d k)
unfolding unm_loop passed sigismember sigaddset sigdelset is_signal
unm_loop-at s d i zero k h = ground arith
unm_loop-at s d i (suc n) k h =
    ground (
      arith,
      unm_loop-at s (if sigismember s i then sigdelset d i else sigaddset d i) (suc i) n k h,
    )

all_passed : (k : ℕ) → is_signal k ≡ true → passed 0 nsig k ≡ true
unfolding passed is_signal
all_passed k h = ground arith

-- For every signal that a program can use, `+` gives the union of two sets, `-` the difference, and
-- the unary `-` the complement.
pub sets-operations :
    (s1 s2 : SigSet) (k : ℕ)
    → is_signal k ≡ true
    → (sigsetmeta___add s1 s2 k ≡ (s1 k || s2 k))
      × (sigsetmeta___sub s1 s2 k ≡ (s1 k && not (s2 k)))
      × (sigsetmeta___unm s1 k ≡ not (s1 k))
unfolding sigsetmeta___add sigsetmeta___sub sigsetmeta___unm
sets-operations s1 s2 k h =
    let all = all_passed k h in
    (
      rw (add_loop-at s2 s1 0 nsig k h) (rw all refl),
      rw (sub_loop-at s2 s1 0 nsig k h) (rw all refl),
      rw (unm_loop-at s1 s1 0 nsig k h) (rw all refl),
    )

-- Whether a name of the list is that of the signal.
is_name_of : ℕ → Outcome Entry → Bool
is_name_of k (ok e) = k == e.value
is_name_of k (stop s) = false

unfoldable pub named : List (List ℕ) → ℕ → Bool
unfolding is_name_of
named [] k = false
named (name ∷ rest) k = let more = named rest k in is_name_of k (slua_tosignal name) || more

-- One name, which is a signal's or ends the call, and the others.
added-named :
    (names : List (List ℕ)) (k : ℕ) (o : Outcome Entry) (set s : SigSet)
    → is_signal k ≡ true
    → (o >>= λ e. set_names sigaddset (sigaddset set e.value) names) ≡ ok s
    → ((d : SigSet) → set_names sigaddset d names ≡ ok s → s k ≡ (d k || named names k))
    → s k ≡ (set k || (is_name_of k o || named names k))
unfolding is_name_of sigaddset is_signal
added-named names k (stop x) set s h p again = cc
added-named names k (ok e) set s h p again = ground (arith, again (sigaddset set e.value) p)

removed-named :
    (names : List (List ℕ)) (k : ℕ) (o : Outcome Entry) (set s : SigSet)
    → is_signal k ≡ true
    → (o >>= λ e. set_names sigdelset (sigdelset set e.value) names) ≡ ok s
    → ((d : SigSet) → set_names sigdelset d names ≡ ok s → s k ≡ (d k && not (named names k)))
    → s k ≡ (set k && not (is_name_of k o || named names k))
unfolding is_name_of sigdelset is_signal
removed-named names k (stop x) set s h p again = cc
removed-named names k (ok e) set s h p again = ground (arith, again (sigdelset set e.value) p)

member : ℕ → Outcome SigSet → Bool
member k (ok s) = s k
member k (stop x) = false

and_true : (b : Bool) → b ≡ (b && true)
and_true false = refl
and_true true = refl

pub set_names-added :
    (names : List (List ℕ)) (k : ℕ) (set s : SigSet)
    → is_signal k ≡ true
    → set_names sigaddset set names ≡ ok s
    → s k ≡ (set k || named names k)
unfolding set_names named member
set_names-added [] k set s h e = ap (member k) (sym e) ∙ or_false (set k)
set_names-added (name ∷ names) k set s h e =
    added-named names k (slua_tosignal name) set s h e (λ d. set_names-added names k d s h)

set_names-removed :
    (names : List (List ℕ)) (k : ℕ) (set s : SigSet)
    → is_signal k ≡ true
    → set_names sigdelset set names ≡ ok s
    → s k ≡ (set k && not (named names k))
unfolding set_names named member
set_names-removed [] k set s h e = ap (member k) (sym e) ∙ and_true (set k)
set_names-removed (name ∷ names) k set s h e =
    removed-named names k (slua_tosignal name) set s h e (λ d. set_names-removed names k d s h)

abbrev pub from_full : Option Bool → Bool
from_full (some true) = true
from_full (some false) = false
from_full none = false

-- The set that `signal.set` makes has just the signals that the call names, or, where the first
-- argument is `true`, has just the signals that the call does not name.
pub siglua_set-named :
    (fill : Option Bool) (names : List (List ℕ)) (k : ℕ) {s : SigSet}
    → is_signal k ≡ true
    → siglua_set fill names ≡ ok s
    → s k ≡ (if from_full fill then not (named names k) else named names k)
unfolding siglua_set sigemptyset sigfillset
siglua_set-named none names k h e = set_names-added names k sigemptyset _ h e
siglua_set-named (some false) names k h e = set_names-added names k sigemptyset _ h e
siglua_set-named (some true) names k h e =
    set_names-removed names k sigfillset _ h e ∙ ap (λ b. b && not (named names k)) h
