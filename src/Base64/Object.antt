-- ===== src/Base64/Object.antt =====
-- `base64__s` and `b64lua`, the constructor, of src/base64.c.
pub mod Constructor
use lua_conmanorg.Prelude.{
  ℕ, zero, suc, ◌-◌, ◌%◌, ◌^◌, Bool, true, false, not, Option, none, some, List, [], ◌∷◌, ◌==◌,
  if◌then◌else◌, length, get_or, set, lua_error, Outcome, ok, stop, ◌>>=◌, ℤ, pos, negsuc,
}

-- `SIZE_MAX` of a 64-bit `size_t`.
abbrev pub size_max : ℕ
size_max = 2 ^ 64 - 1

abbrev pub u8 : ℕ → ℕ
u8 n = n % 2 ^ 8

-- `base64__s`. A `pad` of 0 means that none is written.
pub record Base64 : Type 0 where
  pub len : ℕ
  pub pad : ℕ
  pub ignore : Bool
  pub strict : Bool
  pub transtable : List ℕ

-- `b64->transtable[i]`
abbrev pub transtable_at : Base64 → ℕ → ℕ
transtable_at b64 i = get_or b64.transtable i 0

-- `mbase`: A to Z, a to z, 0 to 9, + and /.
abbrev span : ℕ → ℕ → List ℕ → List ℕ
span zero c rest = rest
span (suc n) c rest = c ∷ span n (suc c) rest

abbrev pub mbase : List ℕ
mbase = span 26 b'A' (span 26 b'a' (span 10 b'0' (b'+' ∷ b'/' ∷ [])))

abbrev pub defaults : Base64
defaults = record { len = 76; pad = b'='; ignore = true; strict = false; transtable = mbase }

-- `*data`: the text of a Lua string ends in a NUL.
abbrev pub peek : List ℕ → ℕ
peek [] = 0
peek (c ∷ cs) = c

-- The table that a caller may pass; `none` is a field that is nil. `len` is what `lua_tointeger`
-- gives, as an `int`. The two flags are what `lua_toboolean` gives, false for nil.
pub record Options : Type 0 where
  pub base : Option (List ℕ)
  pub last : Option (List ℕ)
  pub pad : Option (List ℕ)
  pub len : Option ℤ
  pub ignore : Bool
  pub strict : Bool

-- `lua_getfield(L,1,"base")` and the lines that use it.
unfoldable pub set_base : Option (List ℕ) → Base64 → Outcome Base64
set_base none b64 = ok b64
set_base (some base) b64 =
    if not (length base == 64)
    then stop (lua_error "incorrect length for base field" [])
    else ok (record b64 { transtable = base })

unfoldable pub set_last : Option (List ℕ) → Base64 → Outcome Base64
set_last none b64 = ok b64
set_last (some last) b64 =
    if not (length last == 2)
    then stop (lua_error "need two characters only" [])
    else ok (record b64 {
      transtable = set (set b64.transtable 62 (get_or last 0 0)) 63 (get_or last 1 0);
    })

unfoldable pub line_length : Option ℤ → ℕ
line_length (some (negsuc n)) = size_max
line_length (some (pos n)) = n
line_length none = 76

-- `*luaL_optstring(L,-1,"=")`
unfoldable pub pad_char : Option (List ℕ) → ℕ
pad_char none = b'='
pad_char (some s) = peek s

unfoldable pub b64lua : Option Options → Outcome Base64
unfolding set_base set_last line_length pad_char
b64lua none = ok defaults
b64lua (some o) = do
  with_base ← set_base o.base defaults
  b64 ← set_last o.last with_base
  ok (record b64 {
    pad = pad_char o.pad;
    len = line_length o.len;
    ignore = o.ignore;
    strict = o.strict;
  })
