-- ===== src/Idn/Encoding.antt =====
-- `idn_encode` of src/idn.c, label by label.
use lua_conmanorg.Idn.{Libidn, close_segment, add, encode_loop, idn_encode}
use lua_conmanorg.Prelude.{
  or_false, or_assoc, ℕ, leb, ◌==◌, Bool, false, ◌||◌, Option, none, some, List, [], ◌∷◌, ◌++◌, ◌≡◌,
  refl, sym, ap, ap₂, ◌∙◌, arith,
}
use lua_conmanorg.Idn.Names.{
  Name, last, label, text, dotted_option, each, IsLabel, Labels, has_high, append_assoc, append_nil,
  add-dotted, add_nothing,
}

module _ (lib : Libidn) where
  -- What `idn_encode` makes of a label.
  unfoldable pub encode_label : List ℕ → Option (List ℕ)
  encode_label l = close_segment lib (has_high l) l

  -- To the end of a label.
  encode_letters :
      (l rest seg : List ℕ) (utf8 : Bool) (buf : List ℕ)
      → IsLabel l
      → encode_loop lib (l ++ rest) seg utf8 buf
        ≡ encode_loop lib rest (seg ++ l) (utf8 || has_high l) buf
  unfolding encode_loop has_high
  encode_letters [] rest seg utf8 buf h =
      ap₂ (λ s u. encode_loop lib rest s u buf) (sym (append_nil seg)) (or_false utf8)
  encode_letters (c ∷ l) rest seg utf8 buf h =
      let not_end : (c == 0) ≡ false = ground (arith, h.0) in
      let not_dot : (c == b'.') ≡ false = ground (arith, h.0) in
      rw not_end (
        rw not_dot (
          encode_letters l rest (seg ++ (c ∷ [])) (utf8 || leb 128 c) buf h.1
          ∙ ap₂ (λ s u. encode_loop lib rest s u buf) (append_assoc seg (c ∷ []) l)
              (or_assoc utf8 (leb 128 c) (has_high l))))

  -- At the dot behind a label.
  at_dot :
      (buf rest : List ℕ) (result : Option (List ℕ))
      → ((more : List ℕ) → encode_loop lib rest [] false more ≡ add more result)
      → (o : Option (List ℕ))
      → elim (add buf o) as (λ _. Option (List ℕ)) [
        | none ↦ none
        | some more ↦ encode_loop lib rest [] false (more ++ (b'.' ∷ []))
      ]
        ≡ add buf (dotted_option o result)
  unfolding add dotted_option
  at_dot buf rest result next none = refl
  at_dot buf rest result next (some l) = next ((buf ++ l) ++ (b'.' ∷ [])) ∙ add-dotted buf l result

  encode_names :
      (name : Name) (buf : List ℕ)
      → Labels IsLabel name
      → encode_loop lib (text name) [] false buf ≡ add buf (each encode_label name)
  unfolding encode_loop text each encode_label Labels
  encode_names (last l) buf h =
      ap (λ t. encode_loop lib t [] false buf) (sym (append_nil l))
      ∙ encode_letters l [] [] false buf h
  encode_names (label l rest) buf h =
      encode_letters l (b'.' ∷ text rest) [] false buf h.0
      ∙ at_dot buf (text rest) (each encode_label rest) (λ more. encode_names rest more h.1)
          (close_segment lib (has_high l) l)

  -- `idn_encode` changes each label on its own: one with a byte above 127 by `add_segment`, and the
  -- others not at all. It gives nothing where that fails for some label.
  pub idn_encode-each :
      (name : Name) → Labels IsLabel name → idn_encode lib (text name) ≡ each encode_label name
  unfolding idn_encode
  idn_encode-each name h = encode_names name [] h ∙ add_nothing (each encode_label name)
