-- ===== src/Bsearch/Lookup.antt =====
-- bsearch() in a sorted table finds what a look at every entry finds.
use Prim.Native.Nat.{Ordering}
use lua_conmanorg.Bsearch.{
  Entry, strcmp, rank_of, text_of, is_partitioned, first_equal, bsearch_by, bsearch,
}
use lua_conmanorg.Bsearch.Order.{
  strcmp_refl, strcmp→eq, strcmp_trans, Below, Sorted, is_sorted, is_sorted-Sorted,
}
use lua_conmanorg.Prelude.{
  ℕ, ◌≤◌, ◌≡◌, refl, ◌==◌, sym, ap, true, false, if◌then◌else◌, Option, none, some, List, [], ◌∷◌,
  All, le→leb, same_string, same_string→eq, same_string_refl, ok, arith, Bool-cases, inl, inr,
}

-- The first entry of the name, by a look at every entry.
unfoldable pub lookup : List ℕ → List Entry → Option Entry
lookup key [] = none
lookup key (e ∷ rest) =
    let found = lookup key rest in if same_string key e.text then some e else found

other_rank :
    (key text : List ℕ) (o : Ordering)
    → strcmp key text ≡ o
    → same_string key text ≡ false
    → (rank_of o == 1) ≡ false
other_rank key text Ordering.lt e other = refl
other_rank key text Ordering.gt e other = refl
other_rank key text Ordering.eq e other =
    let same = ap (same_string key) (strcmp→eq key text e) in
    absurd (ground (arith, same, same_string_refl key))

rank_of-same_string : (key text : List ℕ) → (rank_of (strcmp key text) == 1) ≡ same_string key text
rank_of-same_string key text = elim (Bool-cases (same_string key text)) [
  | inl same ↦ ground (arith, ap (strcmp key) (sym (same_string→eq key text same)), strcmp_refl key)
  | inr other ↦ rw other (other_rank key text (strcmp key text) refl other)
]

first_equal-lookup :
    (key : List ℕ) (table : List Entry) → first_equal text_of key table ≡ lookup key table
unfolding first_equal lookup
first_equal-lookup key [] = refl
first_equal-lookup key (e ∷ rest) =
    rw (rank_of-same_string key e.text, first_equal-lookup key rest) refl

-- The key's place in front of an entry is not behind its place in front of a later one.
rank_of-Below :
    (key : List ℕ) (e f : Entry) (o : Ordering)
    → strcmp key e.text ≡ o
    → Below e f
    → rank_of o ≤ rank_of (strcmp key f.text)
rank_of-Below key e f Ordering.gt c b = omega arith
rank_of-Below key e f Ordering.eq c b =
    rw (ap (λ t. strcmp t f.text) (strcmp→eq key e.text c)) (rw b (omega arith))
rank_of-Below key e f Ordering.lt c b = rw (strcmp_trans key e.text f.text c b) (omega arith)

-- Every entry has a place that is not before `rank`.
abbrev From : List ℕ → ℕ → Entry → Type 0
From key rank e = rank ≤ rank_of (strcmp key e.text)

All-From :
    (key : List ℕ) (e : Entry) (rest : List Entry)
    → All (Below e) rest
    → All (From key (rank_of (strcmp key e.text))) rest
All-From key e [] h = tt
All-From key e (f ∷ rest) (b, h) =
    (rank_of-Below key e f (strcmp key e.text) refl b, All-From key e rest h)

Sorted-partitioned :
    (key : List ℕ) (rank : ℕ) (table : List Entry)
    → Sorted table
    → All (From key rank) table
    → is_partitioned text_of key rank table ≡ true
unfolding is_partitioned
Sorted-partitioned key rank [] s h = refl
Sorted-partitioned key rank (e ∷ rest) (b, s) (h, hs) =
    rw (le→leb rank (rank_of (strcmp key e.text)) h)
      (Sorted-partitioned key (rank_of (strcmp key e.text)) rest s (All-From key e rest b))

everything_follows : (key : List ℕ) (table : List Entry) → All (From key 0) table
everything_follows key [] = tt
everything_follows key (e ∷ rest) = (omega arith, everything_follows key rest)

-- In a table whose names ascend, bsearch() is defined, and gives the entry that has the name, or
-- nothing where no entry has it.
pub bsearch-lookup :
    (key : List ℕ) (table : List Entry)
    → is_sorted table ≡ true
    → bsearch key table ≡ ok (lookup key table)
unfolding bsearch bsearch_by
bsearch-lookup key table h =
    rw
      (
        Sorted-partitioned key 0 table (is_sorted-Sorted table h) (everything_follows key table),
        first_equal-lookup key table,
      )
      refl
