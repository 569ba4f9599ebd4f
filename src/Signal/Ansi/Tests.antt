-- ===== src/Signal/Ansi/Tests.antt =====
-- The theorems about the ANSI version of src/signal.c at examples.
use lua_conmanorg.Signal.Names.{found_or_error}
use lua_conmanorg.Bsearch.{bsearch_by, strcmp, first_equal, is_partitioned, bsearch, row}
use lua_conmanorg.Signal.Ansi.{
  slua_tosignal, Signals, siglua_ignore, siglua_default, sig_dfl, sig_ign,
}
use lua_conmanorg.Signal.Ansi.First.{Only, release-Only}
use lua_conmanorg.Prelude.{ℕ, ◌≡◌, refl, false, List, [], ◌∷◌, none, codes, ok}

abbrev before : Signals
before = record {
  m_handlers = λ i. record { name = none; fref = none; triggered = false };
  m_signal = false;
  hooked = false;
  registry = λ r. false;
  disposition = λ v. sig_dfl;
}

int_found : slua_tosignal (codes "int") ≡ ok (row "int" 3)
unfolding slua_tosignal bsearch is_partitioned first_equal strcmp found_or_error bsearch_by
int_found = refl

abbrev both : List (List ℕ)
both = codes "int" ∷ codes "term" ∷ []

release-Only_example :
    ((t : Signals) × (siglua_ignore before both ≡ ok t) × Only sig_ign 3 before t)
    × ((t : Signals) × (siglua_default before both ≡ ok t) × Only sig_dfl 3 before t)
release-Only_example = release-Only before (codes "int") (row "int" 3) (codes "term" ∷ []) int_found
