-- ===== src/Signal/Names/Search.antt =====
-- The searches for names in src/signal.c, against a look at every entry.
use lua_conmanorg.Signal.Names.{
  sigs, tflags, found_or_error, slua_tosignal, is_found, siglua_defined, flag,
}
use lua_conmanorg.Bsearch.{Entry, strcmp}
use lua_conmanorg.Bsearch.Order.{is_sorted}
use Prim.Native.String.{String}
use lua_conmanorg.Bsearch.Lookup.{lookup, bsearch-lookup}
use lua_conmanorg.Prelude.{
  ℕ, ◌<◌, ltb, ◌&&◌, ◌≡◌, refl, sym, ◌∙◌, Bool, true, Option, none, some, List, [], ◌∷◌, ok, arith,
}

sigs_sorted : is_sorted sigs ≡ true
unfolding strcmp
sigs_sorted = refl

tflags_sorted : is_sorted tflags ≡ true
unfolding strcmp
tflags_sorted = refl

-- A name is found as a look at every entry of the table finds it: `slua_tosignal` gives the entry of
-- the name in `sigs` or else an error, `signal.defined` says whether there is one, and a flag is
-- found in `tflags`.
pub names-lookup :
    (name : List ℕ)
    → (slua_tosignal name ≡ found_or_error "signal '%s' not supported" name (lookup name sigs))
      × (siglua_defined name ≡ ok (is_found (lookup name sigs)))
      × (flag name ≡ found_or_error "flag '%s' not supported" name (lookup name tflags))
unfolding slua_tosignal siglua_defined flag
names-lookup name = (
  rw (bsearch-lookup name sigs sigs_sorted) refl,
  rw (bsearch-lookup name sigs sigs_sorted) refl,
  rw (bsearch-lookup name tflags tflags_sorted) refl,
)

-- A test that all entries pass, which the entry that is found passes.
abbrev all_values : (ℕ → Bool) → List Entry → Bool
all_values f [] = true
all_values f (e ∷ rest) = f e.value && all_values f rest

lookup-value :
    (f : ℕ → Bool) (name : List ℕ) (table : List Entry) (e : Entry)
    → all_values f table ≡ true
    → lookup name table ≡ some e
    → f e.value ≡ true
unfolding lookup
lookup-value f name [] e h p = cc
lookup-value f name (x ∷ table) e h p = ground (arith, lookup-value f name table e)

-- A signal's number is an index of `m_handlers`, and not 0.
abbrev is_index : ℕ → Bool
is_index n = ltb 0 n && ltb n 65

found→some :
    (m : String) (name : List ℕ) (o : Option Entry) {e : Entry}
    → found_or_error m name o ≡ ok e
    → o ≡ some e
unfolding found_or_error
found→some m name none h = cc
found→some m name (some e) h = ground (arith, h)

-- Where a name is a signal's, its number is greater than 0 and less than the number of handlers.
slua_tosignal_bounds :
    (name : List ℕ) {e : Entry} → slua_tosignal name ≡ ok e → (0 < e.value) × (e.value < 65)
slua_tosignal_bounds name {e = e} h =
    let found = found→some _ name (lookup name sigs) (sym (names-lookup name).0 ∙ h) in
    let inside = lookup-value is_index name sigs e refl found in ground (arith, inside)
