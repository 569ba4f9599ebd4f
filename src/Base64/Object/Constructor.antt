-- ===== src/Base64/Object/Constructor.antt =====
-- What `b64lua` makes of the options it is given.
use lua_conmanorg.Base64.Object.{
  Base64, defaults, mbase, Options, set_base, set_last, line_length, pad_char, b64lua,
}
use lua_conmanorg.Prelude.{
  ℕ, ◌↔◌, true, false, Option, none, some, List, length, length-set, ok, ◌≡◌, refl, arith, ◌∙◌,
  get_or, set,
}

abbrev pub HasLength : ℕ → Option (List ℕ) → Type 0
HasLength n none = Unit
HasLength n (some s) = length s ≡ n

-- The table of a codec that is built.
abbrev with_base : Option (List ℕ) → List ℕ
with_base none = mbase
with_base (some base) = base

abbrev with_last : Option (List ℕ) → List ℕ → List ℕ
with_last none table = table
with_last (some last) table = set (set table 62 (get_or last 0 0)) 63 (get_or last 1 0)

length-with_base : (base : Option (List ℕ)) → HasLength 64 base → length (with_base base) ≡ 64
length-with_base none h = refl
length-with_base (some base) h = h

length-with_last :
    (last : Option (List ℕ)) (table : List ℕ)
    → length table ≡ 64
    → length (with_last last table) ≡ 64
length-with_last none table h = h
length-with_last (some last) table h =
    length-set (set table 62 (get_or last 0 0)) 63 _ ∙ length-set table 62 _ ∙ h

abbrev built : Options → Base64
built o = record {
  len = line_length o.len;
  pad = pad_char o.pad;
  ignore = o.ignore;
  strict = o.strict;
  transtable = with_last o.last (with_base o.base);
}

b64lua_builds :
    (o : Options) → HasLength 64 o.base → HasLength 2 o.last → b64lua (some o) ≡ ok (built o)
unfolding b64lua set_base set_last
b64lua_builds o h k = ground arith

b64lua_fits :
    (o : Options) (b64 : Base64)
    → b64lua (some o) ≡ ok b64
    → HasLength 64 o.base × HasLength 2 o.last
unfolding b64lua set_base set_last
b64lua_fits o b64 e = ground arith

-- The constructor succeeds, with a table of 64 characters, exactly where a `base` that is given
-- has 64 characters and a `last` that is given has two.
b64lua_succeeds_iff :
    (o : Options)
    → ((b64 : Base64) × (b64lua (some o) ≡ ok b64) × (length b64.transtable ≡ 64))
      ↔ (HasLength 64 o.base × HasLength 2 o.last)
b64lua_succeeds_iff o = (
  λ s. b64lua_fits o s.0 s.1,
  λ h. (
    built o,
    b64lua_builds o h.0 h.1,
    length-with_last o.last (with_base o.base) (length-with_base o.base h.0),
  ),
)

-- A table that leaves `ignore` out gives a codec that refuses foreign characters, unlike the call
-- with no table at all.
b64lua_without_ignore :
    (o : Options) (b64 : Base64)
    → o.ignore ≡ false
    → b64lua (some o) ≡ ok b64
    → (b64.ignore ≡ false) × (b64lua none ≡ ok defaults) × (defaults.ignore ≡ true)
unfolding b64lua
b64lua_without_ignore o b64 h e = ground arith
