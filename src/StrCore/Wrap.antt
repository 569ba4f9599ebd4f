-- ===== src/StrCore/Wrap.antt =====
-- `remshy` and `strcore_wrapt` of src/strcore.c: the lines of a text of at most `margin` columns.
pub mod Segments
pub mod Lines
pub mod Layouts
pub mod Total
pub mod ZeroMargin
pub mod LostHyphen
use lua_conmanorg.StrCore.Glyphs.{EClass, space, combining, shy, hyphen, reset, char, charsmatch}
use lua_conmanorg.Prelude.{
  ℕ, zero, suc, ◌+◌, ◌-◌, ◌*◌, ◌%◌, ◌^◌, Bool, true, false, Option, none, some, List, [], ◌∷◌, ◌++◌,
  ltb, leb, ◌==◌, if◌then◌else◌, length, take, drop, lua_error, undefined, out_of_fuel, Outcome, ok,
  stop, ◌>>=◌,
}

-- The bytes of `s` from `i` up to `n`.
abbrev pub slice : List ℕ → ℕ → ℕ → List ℕ
slice s i n = take (n - i) (drop i s)

-- What `remshy` keeps of the glyph from `i` to `n`: a soft hyphen only at the end.
abbrev pub kept : List ℕ → ℕ → ℕ → EClass → ℕ → List ℕ
kept s i e shy n = if leb e n then slice s i n else []
kept s i e class n = slice s i n

-- The loop of `remshy`. Where `charsmatch` answers BAD the code goes on with an `n` that has no value.
unfoldable pub remshy_loop : ℕ → List ℕ → ℕ → ℕ → Outcome (List ℕ)
remshy_loop zero s i e = if ltb i e then stop out_of_fuel else ok []
remshy_loop (suc fuel) s i e = elim (ltb i e) [
  | false ↦ ok []
  | true ↦ elim (charsmatch s i e) [
    | none ↦ stop undefined
    | some (class, n) ↦ do more ← remshy_loop fuel s n e; ok (kept s i e class n ++ more)
  ]
]

-- Each round goes on by a byte at least.
unfoldable pub remshy : List ℕ → ℕ → ℕ → Outcome (List ℕ)
remshy s i e = remshy_loop (e - i) s i e

-- The variables of `strcore_wrapt`; sums of `size_t` wrap.
pub record Layout : Type 0 where
  pub i : ℕ
  pub front : ℕ
  pub cnt : ℕ
  pub breakhere : ℕ
  pub resume : ℕ
  pub dobreak : Bool

abbrev pub add64 : ℕ → ℕ → ℕ
add64 a b = (a + b) % 2 ^ 64

-- The `switch` on the class of the glyph from `i` to `n`.
unfoldable pub place : ℕ → EClass → ℕ → Layout → Layout
place margin space n l = record l {
  dobreak = true;
  breakhere = l.i;
  resume = n;
  cnt = add64 l.cnt 1;
}
place margin combining n l = l
place margin shy n l =
    if ltb l.cnt margin then record l { dobreak = true; breakhere = n; resume = n } else l
place margin hyphen n l =
    if ltb l.cnt margin
    then record l { dobreak = true; breakhere = n; cnt = add64 l.cnt 1; resume = n }
    else if l.cnt == margin
    then record l { dobreak = true; breakhere = l.i; cnt = add64 margin 1; resume = n }
    else record l { resume = n }
place margin reset n l = record l {
  dobreak = true;
  breakhere = l.i;
  resume = n;
  cnt = add64 margin 1;
}
place margin char n l = record l { cnt = add64 l.cnt 1 }

-- Past the margin: the end of the line that is cut off, and the layout of the next line.
abbrev pub line_break : Layout → ℕ
line_break l = if l.dobreak then l.breakhere else l.i

abbrev pub next_line : Layout → Layout
next_line l =
    let start = if l.dobreak then l.resume else l.i in
    record l { front = start; i = start; cnt = 0; breakhere = 0; dobreak = false }

-- The loop of `strcore_wrapt`, and the last line behind it.
unfoldable pub wrapt_loop : ℕ → List ℕ → ℕ → Layout → Outcome (List (List ℕ))
wrapt_loop zero s margin l = stop out_of_fuel
wrapt_loop (suc fuel) s margin l = elim (ltb l.i (length s)) [
  | false ↦ do line ← remshy s l.front l.i; ok (line ∷ [])
  | true ↦ elim (charsmatch s l.i (length s)) [
    | none ↦ stop (lua_error "bad character" [])
    | some (class, n) ↦
        let l' = place margin class n l in
        elim (ltb margin l'.cnt) [
          | true ↦ do
            line ← remshy s l'.front (line_break l')
            more ← wrapt_loop fuel s margin (next_line l')
            ok (line ∷ more)
          | false ↦ wrapt_loop fuel s margin (record l' { i = n })
        ]
  ]
]

abbrev pub start : Layout
start = record { i = 0; front = 0; cnt = 0; breakhere = 0; resume = 0; dobreak = false }

-- With a margin above 0, a glyph is looked at again only after a break, which leaves less text.
unfoldable pub wrapt : List ℕ → ℕ → Outcome (List (List ℕ))
wrapt s margin = wrapt_loop ((length s + 2) * (length s + 2)) s margin start
