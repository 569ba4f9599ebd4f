-- ===== src/Signal/Masks/Blocked.antt =====
-- Which signals the process blocks after the calls of src/signal.c.
use lua_conmanorg.Signal.Sets.{
  SigSet, is_signal, can_block, sig_block, sig_unblock, sig_setmask, set_names, sigaddset,
  sigemptyset,
}
use lua_conmanorg.Signal.Sets.Operations.{named, set_names-added}
use lua_conmanorg.Signal.Masks.{siglua_allow, siglua_block, how_of, change_mask, siglua_mask}
use lua_conmanorg.Prelude.{
  ℕ, ◌≡◌, refl, sym, ap, Bool, true, false, ◌&&◌, ◌||◌, not, List, Option, none, some, Outcome, ok,
  stop, ok_inj, ◌>>=◌, arith,
}

blocked-after :
    (k : ℕ) (mask : SigSet) (names : List (List ℕ)) (o : Outcome SigSet)
    (change : SigSet → SigSet → SigSet) {t : SigSet}
    → is_signal k ≡ true
    → set_names sigaddset sigemptyset names ≡ o
    → (o >>= λ set. ok (change mask set)) ≡ ok t
    → (set : SigSet) × (set k ≡ named names k) × (t k ≡ change mask set k)
unfolding sigemptyset
blocked-after k mask names (stop x) change h p e = cc
blocked-after k mask names (ok set) change h p e =
    (set, set_names-added names k sigemptyset set h p, ap (λ m. m k) (sym (ok_inj e)))

-- After `signal.block` the process blocks the signals that it blocked before and those that the call
-- names, but for the two that cannot be blocked; after `signal.allow` it blocks those that it blocked
-- before and that the call does not name.
pub blocked-named :
    (mask : SigSet) (names : List (List ℕ)) (k : ℕ) {t : SigSet}
    → is_signal k ≡ true
    → (siglua_block mask names ≡ ok t → t k ≡ (mask k || (named names k && can_block k)))
      × (siglua_allow mask names ≡ ok t → t k ≡ (mask k && not (named names k)))
unfolding siglua_block siglua_allow sig_block sig_unblock
blocked-named mask names k h = (
  λ e.
      (let r =
          blocked-after k mask names (set_names sigaddset sigemptyset names) sig_block h refl e in
        ground (arith, r.1, r.2)),
  λ e.
      (let r =
          blocked-after k mask names (set_names sigaddset sigemptyset names) sig_unblock h refl e in
        ground (arith, r.1, r.2)),
)

set_at : Option SigSet → ℕ → Bool
set_at none k = false
set_at (some set) k = set k

old-mask :
    (mask : SigSet) (o : Option (SigSet → SigSet → SigSet)) (new : SigSet) (k : ℕ) {old : SigSet}
    {errno : ℕ} {changed : SigSet}
    → change_mask mask o new ≡ ((some old, errno), changed)
    → old k ≡ mask k
unfolding change_mask set_at
old-mask mask none new k e = cc
old-mask mask (some how) new k e = ap (λ p. set_at p.0.0 k) (sym e)

how-mask :
    (mask : SigSet) (how : Option (List ℕ)) (new : SigSet) (k : ℕ) {old : SigSet} {errno : ℕ}
    {changed : SigSet}
    → siglua_mask mask how new ≡ ((some old, errno), changed)
    → old k ≡ mask k
unfolding siglua_mask
how-mask mask none new k e = old-mask mask (some sig_setmask) new k e
how-mask mask (some thow) new k e = old-mask mask (how_of thow) new k e

-- A `signal.mask` that was not refused gives the set with which a second call makes the mask what it
-- was, where the mask had no signal that cannot be blocked.
mask-restores :
    (mask : SigSet) (how : Option (List ℕ)) (new : SigSet) (k : ℕ) {old : SigSet} {errno : ℕ}
    {changed : SigSet}
    → (mask k ≡ true → can_block k ≡ true)
    → siglua_mask mask how new ≡ ((some old, errno), changed)
    → (siglua_mask changed none old).1 k ≡ mask k
unfolding siglua_mask change_mask sig_setmask
mask-restores mask how new k h e = let same = how-mask mask how new k e in ground (arith, same, h)
