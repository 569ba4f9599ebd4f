-- ===== src/StrCore/Tests.antt =====
-- Runs of the text functions, and the theorems about them at examples.
use lua_conmanorg.StrCore.Glyphs.{char, charsmatch, char_at, class_in, sclass}
use lua_conmanorg.StrCore.SafeText.{safeutf8}
use lua_conmanorg.StrCore.SafeText.Rounds.{IsByte}
use lua_conmanorg.StrCore.SafeText.Unescape.{outside, unescape, unescape-safeutf8}
use lua_conmanorg.StrCore.SafeText.Printable.{Utf8Text, safeutf8-Utf8Text}
use lua_conmanorg.StrCore.Wrap.{remshy, remshy_loop, place, wrapt, wrapt_loop}
use lua_conmanorg.StrCore.Wrap.LostHyphen.{word_and_hyphen}
use lua_conmanorg.StrCore.Metaphone.{
  vsfn, isalpha, toupper, marked, letters, preprocess, case_c, not_h_before, case_g, case_t, switch,
  unless_nul, round, metaphone_loop, rounds, metaphone_letters, strcore_metaphone,
}
use lua_conmanorg.StrCore.Metaphone.Codes.{Coded, ntrans_of, metaphone-Coded}
use lua_conmanorg.Prelude.{
  undefined, codes, ℕ, ◌≡◌, refl, List, [], ◌∷◌, ◌++◌, All, length, ok, stop, some, ltb, ltb→lt,
  check→All,
}

abbrev words : List ℕ
words = codes "ab cd"

wrapt-words : wrapt words 3 ≡ ok (codes "ab" ∷ codes "cd" ∷ [])
unfolding wrapt wrapt_loop place remshy remshy_loop charsmatch char_at class_in sclass
wrapt-words = refl

-- A soft hyphen behind a full line stays at its end.
shy_run :
    wrapt (codes "abc" ++ (0xc2 ∷ 0xad ∷ codes "d")) 3
    ≡ ok ((codes "abc" ++ (0xc2 ∷ 0xad ∷ [])) ∷ codes "d" ∷ [])
unfolding wrapt wrapt_loop place remshy remshy_loop charsmatch char_at class_in sclass
shy_run = refl

letter : charsmatch words 0 (length words) ≡ some (char, 1)
unfolding charsmatch char_at class_in sclass
letter = refl

broken : wrapt (word_and_hyphen 3 (codes "yyy")) 3 ≡ ok (codes "xxx" ∷ codes "yyy" ∷ [])
unfolding wrapt wrapt_loop place remshy remshy_loop charsmatch char_at class_in sclass
broken = refl

abbrev mixed : List ℕ
mixed = 0x07 ∷ b'a' ∷ 0xc3 ∷ 0xa9 ∷ 0xff ∷ []

mixed-IsByte : All IsByte mixed
mixed-IsByte = check→All IsByte (λ c. ltb c 256) (λ c e. ltb→lt c 256 e) mixed refl

unescape-safeutf8_example :
    (out : List ℕ) × (safeutf8 mixed ≡ ok out) × (unescape outside out ≡ some mixed)
unescape-safeutf8_example = unescape-safeutf8 mixed mixed-IsByte

safeutf8-Utf8Text_example : (out : List ℕ) × (safeutf8 mixed ≡ ok out) × Utf8Text out
safeutf8-Utf8Text_example = safeutf8-Utf8Text mixed mixed-IsByte

abbrev accented : List ℕ
accented = b'a' ∷ 0xc3 ∷ 0xa9 ∷ []

e_acute : charsmatch (0xc3 ∷ 0xa9 ∷ []) 0 2 ≡ some (char, 2)
unfolding charsmatch char_at class_in sclass
e_acute = refl

metaphone_runs :
    (strcore_metaphone (codes "Sean Conner") ≡ ok (codes "SNKNR"))
    × (strcore_metaphone (codes "light") ≡ stop undefined)
unfolding vsfn isalpha toupper marked letters preprocess case_c not_h_before case_g case_t switch
    unless_nul round metaphone_loop rounds metaphone_letters strcore_metaphone
metaphone_runs = (refl, refl)

metaphone-Coded_example :
    Coded
      (ntrans_of (codes "knight"))
      (length (letters (codes "knight")))
      (strcore_metaphone (codes "knight"))
metaphone-Coded_example = metaphone-Coded (codes "knight")
