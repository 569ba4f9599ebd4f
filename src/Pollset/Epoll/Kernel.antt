-- ===== src/Pollset/Epoll/Kernel.antt =====
-- What src/pollset.c calls of epoll, and what it relies on.
use lua_conmanorg.Prelude.{
  ℕ, ◌≤◌, ◌==◌, ◌≡◌, Bool, true, false, ◌||◌, if◌then◌else◌, Option, none, some, List, [], ◌∷◌,
  length, All,
}

-- `struct epoll_event`, with the descriptor as its data.
pub record Ready : Type 0 where
  pub fd : ℕ
  pub events : ℕ

pub data Op : Type 0 where
  ctl_add : Op
  ctl_mod : Op
  ctl_del : Op

-- The result of epoll_wait(): an error number, or the events that it has stored.
pub data Awaited : Type 0 where
  wait_failed : ℕ → Awaited
  got : List Ready → Awaited

-- epoll_ctl() on a descriptor with events gives an error number, if it fails; epoll_wait() takes the
-- number of events that there is room for. `K` is the state of the kernel's set.
pub record Epoll (K : Type 0) : Type 0 where
  pub epoll_ctl : K → Op → ℕ → ℕ → K × Option ℕ
  pub epoll_wait : K → ℕ → K × Awaited

unfoldable pub has : List ℕ → ℕ → Bool
has [] fd = false
has (x ∷ xs) fd = (x == fd) || has xs fd

unfoldable pub without : List ℕ → ℕ → List ℕ
without [] fd = []
without (x ∷ xs) fd = let rest = without xs fd in if x == fd then xs else x ∷ rest

-- The manual page, with `members` for the descriptors that are registered: EPOLL_CTL_ADD fails for one
-- that is registered already and EPOLL_CTL_DEL for one that is not; a call that fails, EPOLL_CTL_MOD
-- and epoll_wait() register nothing; and epoll_wait() reports registered descriptors, as many as there
-- is room for.
pub record Documented {K : Type 0} (epoll : Epoll K) (members : K → List ℕ) : Type 0 where
  pub adds :
      (k : K) (fd events : ℕ) (k' : K)
      → epoll.epoll_ctl k ctl_add fd events ≡ (k', none)
      → (has (members k) fd ≡ false) × (members k' ≡ fd ∷ members k)
  pub deletes :
      (k : K) (fd events : ℕ) (k' : K)
      → epoll.epoll_ctl k ctl_del fd events ≡ (k', none)
      → (has (members k) fd ≡ true) × (members k' ≡ without (members k) fd)
  pub modifies :
      (k : K) (fd events : ℕ) → members (epoll.epoll_ctl k ctl_mod fd events).0 ≡ members k
  pub fails :
      (k : K) (op : Op) (fd events e : ℕ) (k' : K)
      → epoll.epoll_ctl k op fd events ≡ (k', some e)
      → members k' ≡ members k
  pub waits : (k : K) (room : ℕ) → members (epoll.epoll_wait k room).0 ≡ members k
  pub reports :
      (k : K) (room : ℕ) (k' : K) (list : List Ready)
      → epoll.epoll_wait k room ≡ (k', got list)
      → (length list ≤ room) × All (λ r. has (members k) r.fd ≡ true) list
