-- ===== src/Bsearch.antt =====
-- bsearch() of the C library with a comparison by strcmp(), as src/signal.c, src/syslog.c and src/net.c
-- call it. The standard wants the elements that are less than the key first, then those that are equal,
-- then the greater ones, and defines nothing for another table.
pub mod Order
pub mod Lookup
use Prim.Native.Nat.{compare, Ordering}
use Prim.Native.String.{String}
use lua_conmanorg.Prelude.{
  codes, ℕ, leb, ◌==◌, ◌&&◌, Bool, true, if◌then◌else◌, Option, none, some, List, [], ◌∷◌, Outcome,
  ok, stop, undefined,
}

-- `struct mapstrint`, or `struct strintmap`.
pub record Entry : Type 0 where
  pub text : List ℕ
  pub value : ℕ

abbrev pub row : String → ℕ → Entry
row text value = record { text = codes text; value = value }

-- strcmp() of two strings, by their bytes.
unfoldable pub strcmp : List ℕ → List ℕ → Ordering
strcmp [] [] = Ordering.eq
strcmp [] (y ∷ ys) = Ordering.lt
strcmp (x ∷ xs) [] = Ordering.gt
strcmp (x ∷ xs) (y ∷ ys) =
    let rest = strcmp xs ys in
    elim (compare x y) as (λ _. Ordering) [
      | Ordering.lt ↦ Ordering.lt
      | Ordering.gt ↦ Ordering.gt
      | Ordering.eq ↦ rest
    ]

-- The place of an element by the comparison of the key with it.
abbrev pub rank_of : Ordering → ℕ
rank_of Ordering.gt = 0
rank_of Ordering.eq = 1
rank_of Ordering.lt = 2

-- A table of any structures that have a name.
module _ {A : Type 0} where
  -- Whether no element stands before one of a smaller place; `rank` is the place so far.
  unfoldable pub is_partitioned : (A → List ℕ) → List ℕ → ℕ → List A → Bool
  is_partitioned name key rank [] = true
  is_partitioned name key rank (e ∷ rest) =
      let r = rank_of (strcmp key (name e)) in leb rank r && is_partitioned name key r rest

  unfoldable pub first_equal : (A → List ℕ) → List ℕ → List A → Option A
  first_equal name key [] = none
  first_equal name key (e ∷ rest) =
      let later = first_equal name key rest in
      if rank_of (strcmp key (name e)) == 1 then some e else later

  -- Of several equal elements the standard leaves open which is found; the names of a table differ.
  unfoldable pub bsearch_by : (A → List ℕ) → List ℕ → List A → Outcome (Option A)
  bsearch_by name key table =
      if is_partitioned name key 0 table then ok (first_equal name key table) else stop undefined

abbrev pub text_of : Entry → List ℕ
text_of e = e.text

unfoldable pub bsearch : List ℕ → List Entry → Outcome (Option Entry)
bsearch key table = bsearch_by text_of key table
