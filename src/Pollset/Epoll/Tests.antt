-- ===== src/Pollset/Epoll/Tests.antt =====
-- The theorems about sets on epoll, with a kernel that keeps a list of descriptors.
use lua_conmanorg.Pollset.Poll.{object}
use lua_conmanorg.Pollset.Epoll.Kernel.{
  Ready, Op, ctl_add, ctl_mod, ctl_del, Awaited, wait_failed, got, Epoll, has, without, Documented,
}
use lua_conmanorg.Pollset.Epoll.{PollSet, pollset_lua, added, polllua_insert, polllua_wait}
use lua_conmanorg.Pollset.Epoll.Members.{WellFormed}
use lua_conmanorg.Pollset.Epoll.Invariant.{insert, Reachable, new, step, Reachable-WellFormed_epoll}
use lua_conmanorg.Pollset.Epoll.Iteration.{WaitReports, wait-WaitReports}
use lua_conmanorg.Prelude.{
  ℕ, zero, suc, ◌≤◌, ◌<◌, true, if◌then◌else◌, Option, none, some, List, [], ◌∷◌, length, All,
  Bool-cases, ◌≡◌, ◌≢◌, inl, inr, refl, sym, ap, subst, arith,
}

unfoldable control : List ℕ → Op → ℕ → ℕ → List ℕ × Option ℕ
control k ctl_add fd events = if has k fd then (k, some 17) else (fd ∷ k, none)
control k ctl_mod fd events = (k, none)
control k ctl_del fd events = if has k fd then (without k fd, none) else (k, some 2)

-- One event, of the last descriptor that was registered.
unfoldable first_ready : List ℕ → ℕ → List Ready
first_ready [] room = []
first_ready (fd ∷ k) zero = []
first_ready (fd ∷ k) (suc room) = record { fd = fd; events = 1 } ∷ []

abbrev kernel : Epoll (List ℕ)
kernel = record { epoll_ctl = control; epoll_wait = λ k room. (k, got (first_ready k room)) }

abbrev itself : List ℕ → List ℕ
itself k = k

ready_list : List Ready → List ℕ × Awaited → List Ready
ready_list old (k, got list) = list
ready_list old (k, wait_failed e) = old

first_ready_lem :
    (k : List ℕ) (room : ℕ)
    → (length (first_ready k room) ≤ room) × All (λ r. has k r.fd ≡ true) (first_ready k room)
unfolding first_ready has
first_ready_lem [] room = (omega arith, tt)
first_ready_lem (fd ∷ k) zero = (omega arith, tt)
first_ready_lem (fd ∷ k) (suc room) = (omega arith, (ground arith, tt))

kernel-Documented : Documented kernel itself
unfolding control ready_list
kernel-Documented = record {
  adds = λ k fd events k' e. elim (Bool-cases (has k fd)) [
    | inl there ↦ absurd (number (rw there at e))
    | inr fresh ↦ (fresh, ap state (sym (rw fresh at e)))
  ];
  deletes = λ k fd events k' e. elim (Bool-cases (has k fd)) [
    | inl there ↦ (there, ap state (sym (rw there at e)))
    | inr fresh ↦ absurd (number (rw fresh at e))
  ];
  modifies = λ k fd events. refl;
  fails = λ k op fd events e k' d. same k op fd events e k' d;
  waits = λ k room. refl;
  reports = λ k room k' list e.
      subst (λ l. (length l ≤ room) × All (λ r. has k r.fd ≡ true) l) (ap (ready_list []) e)
        (first_ready_lem k room);
}
  where
    state : List ℕ × Option ℕ → List ℕ
    state r = r.0

    number : {k k' : List ℕ} {e : ℕ} → ◌≢◌ {A = List ℕ × Option ℕ} (k, some e) (k', none)
    number d = cc

    same :
        (k : List ℕ) (op : Op) (fd events e : ℕ) (k' : List ℕ)
        → control k op fd events ≡ (k', some e)
        → k' ≡ k
    same k ctl_add fd events e k' d = elim (Bool-cases (has k fd)) [
      | inl there ↦ ap state (sym (rw there at d))
      | inr fresh ↦ absurd (number (sym (rw fresh at d)))
    ]
    same k ctl_mod fd events e k' d = cc
    same k ctl_del fd events e k' d = elim (Bool-cases (has k fd)) [
      | inl there ↦ absurd (number (sym (rw there at d)))
      | inr fresh ↦ ap state (sym (rw fresh at d))
    ]

abbrev one_set : PollSet (List ℕ)
one_set = (polllua_insert kernel (pollset_lua []) (some 5) (b'r' ∷ []) (some (object 0))).1

one_set-Reachable : Reachable kernel itself kernel-Documented one_set
one_set-Reachable = step (new [] refl) (insert (some 5) (b'r' ∷ []) (some (object 0)))

Reachable-WellFormed_epoll_example : WellFormed itself one_set
Reachable-WellFormed_epoll_example =
    Reachable-WellFormed_epoll kernel itself kernel-Documented one_set-Reachable

few : one_set.idx < 9
unfolding polllua_insert added pollset_lua control has
few = omega arith

wait-WaitReports_example :
    WaitReports
      (kernel.epoll_wait one_set.efh one_set.idx)
      none
      one_set
      (polllua_wait kernel one_set none).1
      9
      (polllua_wait kernel one_set none).0
wait-WaitReports_example =
    wait-WaitReports kernel itself kernel-Documented one_set none 9
      (Reachable-WellFormed_epoll kernel itself kernel-Documented one_set-Reachable) few
