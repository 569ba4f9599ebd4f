-- ===== src/Pollset/Epoll/Members.antt =====
-- A set of src/pollset.c on epoll and the kernel's set behind it.
use lua_conmanorg.Pollset.Poll.{Value, settable, obj_or_fd}
use lua_conmanorg.Pollset.Poll.Invariant.{is_some}
use lua_conmanorg.Pollset.Epoll.Kernel.{Ready, has, without}
use lua_conmanorg.Pollset.Epoll.{PollSet}
use lua_conmanorg.Prelude.{
  ℕ, suc, ◌%◌, ◌^◌, ◌≤◌, ◌==◌, Bool, true, false, not, ◌||◌, ◌&&◌, Option, none, some, List, [],
  ◌∷◌, length, ℤ, pos, negsuc, Bool-cases, ◌≡◌, ◌⊎◌, inl, inr, refl, ap, arith,
}

-- No descriptor is registered twice.
unfoldable pub Distinct : List ℕ → Type 0
Distinct [] = Unit {0}
Distinct (x ∷ xs) = (has xs x ≡ false) × Distinct xs

-- Which elements of the array the iterator may read.
unfoldable pub Listed : Option (List Ready) → ℤ → ℕ → Type 0
Listed (some list) (pos max) count = length list ≡ max
Listed none (pos max) count = max ≤ count
Listed list (negsuc n) count = Unit {0}

-- `idx` counts the registered descriptors; the user value has an object for them, and no other; and
-- the iterator reads only elements that there are.
pub record WellFormed {K : Type 0} (members : K → List ℕ) (s : PollSet K) : Type 0 where
  pub size : s.idx ≡ length (members s.efh) % 2 ^ 64
  pub distinct : Distinct (members s.efh)
  pub objects : (k : ℕ) → is_some (s.uservalue k) ≡ has (members s.efh) k
  pub listed : Listed s.list s.max s.count

pub length-without :
    (xs : List ℕ) (fd : ℕ) → has xs fd ≡ true → length xs ≡ suc (length (without xs fd))
unfolding has without
length-without [] fd h = cc
length-without (x ∷ xs) fd h = elim (Bool-cases (x == fd)) [
  | inl here ↦ rw here refl
  | inr other ↦
      let rest : has xs fd ≡ true = ground arith in rw other (ap suc (length-without xs fd rest))
]

pub has-without :
    (xs : List ℕ) (fd k : ℕ) → Distinct xs → has (without xs fd) k ≡ (has xs k && not (k == fd))
unfolding has without Distinct
has-without [] fd k d = refl
has-without (x ∷ xs) fd k d = elim (Bool-cases (x == fd)) [
  | inl here ↦ rw here (gone (Bool-cases (k == fd)) here)
  | inr other ↦ rw other (ground (arith, has-without xs fd k d.1))
]
  where
    gone :
        ((k == fd) ≡ true) ⊎ ((k == fd) ≡ false)
        → (x == fd) ≡ true
        → has xs k ≡ (((x == k) || has xs k) && not (k == fd))
    gone (inl same) e = let it : x ≡ k = ground arith in ground (arith, d.0, ap (has xs) it)
    gone (inr apart) e = ground arith

pub Distinct-without : (xs : List ℕ) (fd : ℕ) → Distinct xs → Distinct (without xs fd)
unfolding Distinct without
Distinct-without [] fd d = d
Distinct-without (x ∷ xs) fd d = elim (Bool-cases (x == fd)) [
  | inl here ↦ rw here d.1
  | inr other ↦ rw other (ground (arith, d.0, has-without xs fd x d.1), Distinct-without xs fd d.1)
]

pub with_object :
    (table : ℕ → Option Value) (fh : ℕ) (obj : Option Value) (k : ℕ) (b : Bool)
    → is_some (table k) ≡ b
    → is_some (settable table fh (some (obj_or_fd fh obj)) k) ≡ ((fh == k) || b)
unfolding settable is_some
with_object table fh obj k b e = ground (arith, e)

pub without_object :
    (table : ℕ → Option Value) (fh k : ℕ) (b : Bool)
    → is_some (table k) ≡ b
    → is_some (settable table fh none k) ≡ (b && not (k == fh))
unfolding settable is_some
without_object table fh k b e = ground (arith, e)
