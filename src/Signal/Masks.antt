-- ===== src/Signal/Masks.antt =====
-- The calls of src/signal.c that ask the system: the mask of the process, the pending signals, and
-- sending a signal. The process is the mask that it blocks; what kill(), sigpending() and
-- sigsuspend() give is a parameter.
pub mod Blocked
use lua_conmanorg.Bsearch.{Entry}
use lua_conmanorg.Signal.Names.{slua_tosignal}
use lua_conmanorg.Signal.Sets.{
  SigSet, sigemptyset, sigaddset, set_names, sig_block, sig_unblock, sig_setmask,
}
use lua_conmanorg.Prelude.{
  ℕ, ◌==◌, Bool, true, false, if◌then◌else◌, List, Option, none, some, codes, same_string, Outcome,
  ok, ◌>>=◌,
}

unfoldable pub siglua_allow : SigSet → List (List ℕ) → Outcome SigSet
siglua_allow mask names = set_names sigaddset sigemptyset names >>= λ set. ok (sig_unblock mask set)

unfoldable pub siglua_block : SigSet → List (List ℕ) → Outcome SigSet
siglua_block mask names = set_names sigaddset sigemptyset names >>= λ set. ok (sig_block mask set)

-- What `how` says, or nothing where it is none of the three words.
unfoldable pub how_of : List ℕ → Option (SigSet → SigSet → SigSet)
how_of thow =
    if same_string thow (codes "block")
    then some sig_block
    else if same_string thow (codes "unblock")
    then some sig_unblock
    else if same_string thow (codes "set")
    then some sig_setmask
    else none

-- The results are the old set, or nil with EINVAL, and the mask.
unfoldable pub change_mask :
    SigSet → Option (SigSet → SigSet → SigSet) → SigSet → (Option SigSet × ℕ) × SigSet
change_mask mask none new = ((none, 22), mask)
change_mask mask (some how) new = ((some mask, 0), how mask new)

unfoldable pub siglua_mask : SigSet → Option (List ℕ) → SigSet → (Option SigSet × ℕ) × SigSet
siglua_mask mask none new = change_mask mask (some sig_setmask) new
siglua_mask mask (some thow) new = change_mask mask (how_of thow) new

-- The results are the set or nil, and the error number.
unfoldable pub siglua_pending : SigSet × ℕ → Option SigSet × ℕ
siglua_pending (set, errno) = (if errno == 0 then some set else none, errno)

unfoldable pub siglua_suspend : (SigSet → ℕ) → SigSet → Bool × ℕ
siglua_suspend sigsuspend set = (sigsuspend set == 0, sigsuspend set)

-- `raise` and `kill` give 0 where the signal was sent.
unfoldable pub siglua_raise : (ℕ → ℕ) → (ℕ → ℕ → ℕ) → List ℕ → Option ℕ → Outcome Bool
siglua_raise raise kill name none = slua_tosignal name >>= λ e. ok (raise e.value == 0)
siglua_raise raise kill name (some pid) = slua_tosignal name >>= λ e. ok (kill pid e.value == 0)
