-- ===== src/Pollset/Poll/Elements.antt =====
-- The elements of the array of src/pollset.c, by their descriptors.
use lua_conmanorg.Pollset.Poll.{PollFd, update_loop, remove_loop, write_revents}
use lua_conmanorg.Prelude.{
  ℕ, suc, ◌==◌, Bool, true, false, not, ◌&&◌, ◌||◌, Option, none, some, List, [], ◌∷◌, ◌++◌, length,
  Bool-cases, ◌≡◌, ◌⊎◌, inl, inr, refl, ap, ◌∙◌, arith,
}

unfoldable pub has_fd : List PollFd → ℕ → Bool
has_fd [] k = false
has_fd (p ∷ rest) k = (p.fd == k) || has_fd rest k

-- No descriptor occurs twice.
unfoldable pub Distinct : List PollFd → Type 0
Distinct [] = Unit {0}
Distinct (p ∷ rest) = (has_fd rest p.fd ≡ false) × Distinct rest

-- What `update_loop` finds.
pub data Updated (set : List PollFd) (fh : ℕ) : Option (List PollFd) → Type 0 where
  not_there : has_fd set fh ≡ false → Updated set fh none
  there :
      {set' : List PollFd}
      → has_fd set fh ≡ true
      → length set' ≡ length set
      → ((k : ℕ) → has_fd set' k ≡ has_fd set k)
      → (Distinct set → Distinct set')
      → Updated set fh (some set')

pub update_loop-Updated :
    (set : List PollFd) (fh events : ℕ) → Updated set fh (update_loop set fh events)
unfolding update_loop has_fd Distinct
update_loop-Updated [] fh events = not_there refl
update_loop-Updated (p ∷ rest) fh events = elim (Bool-cases (p.fd == fh)) [
  | inl here ↦ rw here (there (ground arith) refl (λ k. refl) (λ d. d))
  | inr other ↦
      rw other (later (update_loop rest fh events) (update_loop-Updated rest fh events) other)
]
  where
    later :
        (o : Option (List PollFd))
        → Updated rest fh o
        → (p.fd == fh) ≡ false
        → Updated
            (p ∷ rest)
            fh
            (elim o as (λ _. Option (List PollFd)) [ none ↦ none | some more ↦ some (p ∷ more) ])
    later none (not_there h) e = not_there (ground arith)
    later (some more) (there h l m d) e =
        there (ground arith) (ap suc l) (λ k. ap (λ b. (p.fd == k) || b) (m k))
          (λ s. (m p.fd ∙ s.0, d s.1))

-- What `remove_loop` finds.
pub data Removed (set : List PollFd) (fh : ℕ) : Option (List PollFd) → Type 0 where
  absent : has_fd set fh ≡ false → Removed set fh none
  taken :
      {set' : List PollFd}
      → has_fd set fh ≡ true
      → length set ≡ suc (length set')
      → (Distinct set → (k : ℕ) → has_fd set' k ≡ (has_fd set k && not (k == fh)))
      → (Distinct set → Distinct set')
      → Removed set fh (some set')

pub remove_loop-Removed : (set : List PollFd) (fh : ℕ) → Removed set fh (remove_loop set fh)
unfolding remove_loop has_fd Distinct
remove_loop-Removed [] fh = absent refl
remove_loop-Removed (p ∷ rest) fh = elim (Bool-cases (p.fd == fh)) [
  | inl here ↦
      rw here (taken (ground arith) refl (λ d k. gone d.0 k here (Bool-cases (k == fh))) (λ d. d.1))
  | inr other ↦ rw other (later (remove_loop rest fh) (remove_loop-Removed rest fh) other)
]
  where
    gone :
        has_fd rest p.fd ≡ false
        → (k : ℕ) → (p.fd == fh) ≡ true
        → ((k == fh) ≡ true) ⊎ ((k == fh) ≡ false)
        → has_fd rest k ≡ (((p.fd == k) || has_fd rest k) && not (k == fh))
    gone d k e (inl same) = let it : p.fd ≡ k = ground arith in ground (arith, ap (has_fd rest) it)
    gone d k e (inr apart) = ground arith

    apart_from :
        (k : ℕ) (b c : Bool)
        → (p.fd == fh) ≡ false
        → b ≡ (c && not (k == fh))
        → ((p.fd == k) || b) ≡ (((p.fd == k) || c) && not (k == fh))
    apart_from k b c e h = ground (arith, h)

    later :
        (o : Option (List PollFd))
        → Removed rest fh o
        → (p.fd == fh) ≡ false
        → Removed
            (p ∷ rest)
            fh
            (elim o as (λ _. Option (List PollFd)) [ none ↦ none | some more ↦ some (p ∷ more) ])
    later none (absent h) e = absent (ground arith)
    later (some more) (taken h l m d) e =
        taken (ground arith) (ap suc l)
          (λ s k. apart_from k (has_fd more k) (has_fd rest k) e (m s.1 k))
          (λ s. (ground (arith, m s.1 p.fd, s.0), d s.1))

pub has_fd-append :
    (xs ys : List PollFd) (k : ℕ) → has_fd (xs ++ ys) k ≡ (has_fd xs k || has_fd ys k)
unfolding has_fd
has_fd-append [] ys k = refl
has_fd-append (p ∷ xs) ys k = ground (arith, has_fd-append xs ys k)

-- A new descriptor at the end.
pub Distinct-new :
    (xs : List PollFd) (p : PollFd)
    → Distinct xs
    → has_fd xs p.fd ≡ false
    → Distinct (xs ++ (p ∷ []))
unfolding Distinct has_fd
Distinct-new [] p d h = (refl, tt)
Distinct-new (x ∷ xs) p d h =
    (has_fd-append xs (p ∷ []) x.fd ∙ ground (arith, d.0), Distinct-new xs p d.1 (ground arith))

pub length-write_revents :
    (set : List PollFd) (revents : List ℕ) → length (write_revents set revents) ≡ length set
unfolding write_revents
length-write_revents [] revents = refl
length-write_revents (p ∷ rest) [] = refl
length-write_revents (p ∷ rest) (r ∷ more) = ap suc (length-write_revents rest more)

pub has_fd-write_revents :
    (set : List PollFd) (revents : List ℕ) (k : ℕ)
    → has_fd (write_revents set revents) k ≡ has_fd set k
unfolding write_revents has_fd
has_fd-write_revents [] revents k = refl
has_fd-write_revents (p ∷ rest) [] k = refl
has_fd-write_revents (p ∷ rest) (r ∷ more) k =
    ap (λ b. (p.fd == k) || b) (has_fd-write_revents rest more k)

pub Distinct-write_revents :
    (set : List PollFd) (revents : List ℕ) → Distinct set → Distinct (write_revents set revents)
unfolding write_revents Distinct
Distinct-write_revents [] revents d = d
Distinct-write_revents (p ∷ rest) [] d = d
Distinct-write_revents (p ∷ rest) (r ∷ more) d =
    (has_fd-write_revents rest more p.fd ∙ d.0, Distinct-write_revents rest more d.1)
