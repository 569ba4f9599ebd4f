-- ===== src/Idn/Decoding.antt =====
-- `idn_decode` of src/idn.c, label by label.
use lua_conmanorg.Idn.{
  Libidn, prefix, add, behind_prefix, decode_punycode, decode_label, decode_loop, idn_decode,
}
use lua_conmanorg.Prelude.{
  ℕ, zero, suc, ◌+◌, ◌-◌, ◌≤◌, ◌==◌, Bool, true, false, if◌then◌else◌, Option, none, some, List, [],
  ◌∷◌, ◌++◌, length, take, Outcome, ok, split_at_first, ◌≡◌, refl, sym, ap, ◌∙◌, arith,
  length-append,
}
use lua_conmanorg.Idn.Names.{
  Name, last, label, text, dotted_option, each, IsLabel, Labels, append_nil, add-dotted,
  add_nothing,
}

pub take_none : (ys : List ℕ) → take 0 ys ≡ []
take_none [] = refl
take_none (y ∷ ys) = refl

pub take_whole : (xs ys : List ℕ) → take (length xs) (xs ++ ys) ≡ xs
take_whole [] ys = take_none ys
take_whole (x ∷ xs) ys = ap (λ l. x ∷ l) (take_whole xs ys)

-- Behind four characters, right or not.
pub four :
    (f : Option (List ℕ) → Option (List ℕ)) (p q r s : Bool) (u v : List ℕ)
    → f (some u) ≡ f (some v)
    → f (
        if p
        then (if q then (if r then (if s then some u else none) else none) else none)
        else none)
      ≡ f (
          if p
          then (if q then (if r then (if s then some v else none) else none) else none)
          else none)
four f false q r s u v e = refl
four f true false r s u v e = refl
four f true true false s u v e = refl
four f true true true false u v e = refl
four f true true true true u v e = e

pub split_last : (l : List ℕ) → IsLabel l → split_at_first b'.' l ≡ (l, none)
unfolding split_at_first
split_last [] h = refl
split_last (c ∷ l) h = ground (arith, h.0, split_last l h.1)

pub split_label : (l t : List ℕ) → IsLabel l → split_at_first b'.' (l ++ (b'.' ∷ t)) ≡ (l, some t)
unfolding split_at_first
split_label [] t h = refl
split_label (c ∷ l) t h = ground (arith, h.0, split_label l t h.1)

module _ (lib : Libidn) where
  -- What `idn_decode` makes of a label.
  unfoldable pub decode_one : List ℕ → Option (List ℕ)
  decode_one l = decode_label lib l (behind_prefix prefix l)

  -- One round of `idn_decode`, for the last label and for another.
  decode_label_before :
      (l t : List ℕ) → decode_label lib l (behind_prefix prefix (l ++ (b'.' ∷ t))) ≡ decode_one l
  unfolding decode_one decode_label behind_prefix
  decode_label_before [] t = refl
  decode_label_before (a ∷ []) t = ground arith
  decode_label_before (a ∷ b ∷ []) t = ground arith
  decode_label_before (a ∷ b ∷ c ∷ []) t = ground arith
  decode_label_before (a ∷ b ∷ c ∷ d ∷ l) t =
      let count : suc (suc (suc (suc (length l)))) - 4 ≡ length l = omega arith in
      let same : take (length l) (l ++ (b'.' ∷ t)) ≡ take (length l) l =
        take_whole l (b'.' ∷ t)
        ∙ sym (ap (take (length l)) (sym (append_nil l)) ∙ take_whole l []) in
      four (decode_label lib (a ∷ b ∷ c ∷ d ∷ l)) (a == b'x') (b == b'n') (c == b'-') (d == b'-')
        (l ++ (b'.' ∷ t)) l
        (ap (λ u. decode_punycode lib (lib.punycode_decode 64 u))
          (ap (λ n. take n (l ++ (b'.' ∷ t))) count ∙ same ∙ ap (λ n. take n l) (sym count)))

  -- The last round, and one before it.
  last_round :
      (buf : List ℕ) (o : Option (List ℕ)) (p : Option (List ℕ))
      (next : List ℕ → List ℕ → Outcome (Option (List ℕ)))
      → p ≡ none
      → elim (add buf o) as (λ _. Outcome (Option (List ℕ))) [
        | none ↦ ok none
        | some more ↦ elim p [ none ↦ ok (some more) | some rest ↦ next rest more ]
      ]
        ≡ ok (add buf o)
  unfolding add
  last_round buf none p next e = refl
  last_round buf (some l) p next e = rw e refl

  label_round :
      (buf rest : List ℕ) (o : Option (List ℕ)) (p : Option (List ℕ))
      (next : List ℕ → List ℕ → Outcome (Option (List ℕ))) (result : Option (List ℕ))
      → p ≡ some rest
      → ((more : List ℕ) → next rest more ≡ ok (add (more ++ (b'.' ∷ [])) result))
      → elim (add buf o) as (λ _. Outcome (Option (List ℕ))) [
        | none ↦ ok none
        | some more ↦ elim p [ none ↦ ok (some more) | some rest ↦ next rest more ]
      ]
        ≡ ok (add buf (dotted_option o result))
  unfolding add dotted_option
  label_round buf rest none p next result e n = refl
  label_round buf rest (some l) p next result e n =
      rw e (n (buf ++ l) ∙ ap ok (add-dotted buf l result))

  decode_names :
      (name : Name) (fuel : ℕ) (buf : List ℕ)
      → Labels IsLabel name
      → length (text name) ≤ fuel
      → decode_loop lib (suc fuel) (text name) buf ≡ ok (add buf (each decode_one name))
  unfolding decode_loop text each Labels decode_one
  decode_names (last l) fuel buf h e =
      last_round buf (decode_label lib (split_at_first b'.' l).0 (behind_prefix prefix l))
        (split_at_first b'.' l).1 (λ rest more. decode_loop lib fuel rest (more ++ (b'.' ∷ [])))
        (ap (λ (p : List ℕ × Option (List ℕ)). p.1) (split_last l h))
      ∙ ap
          (λ (p : List ℕ × Option (List ℕ)).
            ok (add buf (decode_label lib p.0 (behind_prefix prefix l))))
          (split_last l h)
  decode_names (label l rest) zero buf h e =
      absurd (omega (arith, e, length-append l (b'.' ∷ text rest)))
  decode_names (label l rest) (suc fuel) buf h e =
      let fits : length (text rest) ≤ fuel = omega (arith, e, length-append l (b'.' ∷ text rest)) in
      let orig = l ++ (b'.' ∷ text rest) in
      let split = split_label l (text rest) h.0 in
      label_round buf (text rest)
        (decode_label lib (split_at_first b'.' orig).0 (behind_prefix prefix orig))
        (split_at_first b'.' orig).1
        (λ rest more. decode_loop lib (suc fuel) rest (more ++ (b'.' ∷ []))) (each decode_one rest)
        (ap (λ (p : List ℕ × Option (List ℕ)). p.1) split)
        (λ more. decode_names rest fuel (more ++ (b'.' ∷ [])) h.1 fits)
      ∙ ap
          (λ (p : List ℕ × Option (List ℕ)). ok (
            add buf (
              dotted_option (decode_label lib p.0 (behind_prefix prefix orig))
                (each decode_one rest))))
          split
      ∙ ap (λ o. ok (add buf (dotted_option o (each decode_one rest))))
          (decode_label_before l (text rest))

  -- `idn_decode` ends, and it changes each label on its own: one that starts with `xn--` as libidn
  -- says, and the others not at all. It gives nothing where libidn fails for some label.
  pub idn_decode-each :
      (name : Name) → Labels IsLabel name → idn_decode lib (text name) ≡ ok (each decode_one name)
  unfolding idn_decode
  idn_decode-each name h =
      let more : length (text name) + 1 ≡ suc (length (text name)) = omega arith in
      rw more (
        decode_names name (length (text name)) [] h (omega arith)
        ∙ ap ok (add_nothing (each decode_one name)))
