-- ===== src/StrCore/Wrap/LostHyphen.antt =====
-- `strcore_wrapt` on a hyphen that stands just behind the margin.
use lua_conmanorg.StrCore.Glyphs.{char, hyphen, sclass, class_in, char_at, charsmatch}
use lua_conmanorg.StrCore.Wrap.{remshy, Layout, place, next_line, wrapt_loop, start, wrapt}
use lua_conmanorg.StrCore.Wrap.Segments.{Glyphs, end, glyph, remshy-visible, visible}
use lua_conmanorg.StrCore.Wrap.Layouts.{Inv}
use lua_conmanorg.StrCore.Wrap.Lines.{Lines, Wrapped, none_yet}
use lua_conmanorg.StrCore.Wrap.Total.{round_on, round_break, wrapt_loop-Wrapped}
use lua_conmanorg.Prelude.{
  ℕ, zero, suc, ◌+◌, ◌-◌, ◌*◌, ◌^◌, ◌≤◌, ◌<◌, true, false, List, [], ◌∷◌, ◌++◌, length,
  length-append, length-replicate, replicate, ltb, get_or, take, drop, some, stop, ok, Outcome,
  ◌>>=◌, ◌≡◌, refl, arith, ◌∙◌, sym, ap, ap₂,
}

m_below_square : (n m : ℕ) → m < n → m + 1 ≤ (n + 2) * (n + 2)
m_below_square n m h = grind arith

enough : (n k : ℕ) → k < n → (n - (k + 1)) * (n + 2) + (n - (k + 1)) < (n + 2) * (n + 2) - (k + 1)
enough n k h = grind arith

get_or-replicate : (m i c : ℕ) (rest : List ℕ) → i < m → get_or (replicate m c ++ rest) i 0 ≡ c
get_or-replicate zero i c rest h = absurd (omega arith)
get_or-replicate (suc m) zero c rest h = refl
get_or-replicate (suc m) (suc i) c rest h = get_or-replicate m i c rest (omega arith)

get_or_behind : (m c d : ℕ) (rest : List ℕ) → get_or (replicate m c ++ (d ∷ rest)) m 0 ≡ d
get_or_behind zero c d rest = refl
get_or_behind (suc m) c d rest = get_or_behind m c d rest

one_letter : (m i c : ℕ) (rest : List ℕ) → i < m → take 1 (drop i (replicate m c ++ rest)) ≡ c ∷ []
one_letter zero i c rest h = absurd (omega arith)
one_letter (suc m) zero c rest h = refl
one_letter (suc m) (suc i) c rest h = one_letter m i c rest (omega arith)

class_of_x : class_in sclass b'x' ≡ char
unfolding class_in sclass
class_of_x = refl

class_of_hyphen : class_in sclass b'-' ≡ hyphen
unfolding class_in sclass
class_of_hyphen = refl

-- `m` letters, a hyphen and more.
abbrev pub word_and_hyphen : ℕ → List ℕ → List ℕ
word_and_hyphen m rest = replicate m b'x' ++ (b'-' ∷ rest)

module _ (m : ℕ) (rest : List ℕ) where
  abbrev s : List ℕ
  s = word_and_hyphen m rest

  long_enough : m < length s
  long_enough =
      omega (arith, length-append (replicate m b'x') (b'-' ∷ rest), length-replicate {A = ℕ} m b'x')

  at_letter : (i : ℕ) → i < m → charsmatch s i (length s) ≡ some (char, i + 1)
  unfolding charsmatch char_at
  at_letter i h = ground (arith, get_or-replicate m i b'x' (b'-' ∷ rest) h, class_of_x, long_enough)

  at_hyphen : charsmatch s m (length s) ≡ some (hyphen, m + 1)
  unfolding charsmatch char_at
  at_hyphen = ground (arith, get_or_behind m b'x' b'-' rest, class_of_hyphen, long_enough)

  letters_from : (j i : ℕ) → i + j ≡ m → (g : Glyphs s m i j) × (visible g ≡ replicate j b'x')
  unfolding visible
  letters_from zero i h = (end (omega arith) refl, refl)
  letters_from (suc j) i h =
      let (g, e) = letters_from j (i + 1) (omega arith) in
      let one : i + 1 - i ≡ 1 = omega arith in
      (
        glyph char (at_letter i (omega arith)) g (omega arith),
        ap₂ ◌++◌ {y = b'x' ∷ []} (rw one (one_letter m i b'x' (b'-' ∷ rest) (omega arith))) e,
      )

  -- The line, and the loop while the letters are read.
  the_line : remshy s 0 m ≡ ok (replicate m b'x')
  the_line = let (g, e) = letters_from m 0 (omega arith) in remshy-visible g ∙ ap ok e

  abbrev reading : ℕ → Layout
  reading i = record { i = i; front = 0; cnt = i; breakhere = 0; resume = 0; dobreak = false }

  module _ (small : m < 2 ^ 64 - 1) where
    place_letter :
        (i : ℕ) → i < m → place m char (i + 1) (reading i) ≡ record (reading i) { cnt = i + 1 }
    unfolding place
    place_letter i h = ground arith

    abbrev past_margin : Layout
    past_margin = record {
      i = m;
      front = 0;
      cnt = m + 1;
      breakhere = m;
      resume = m + 1;
      dobreak = true;
    }

    place_hyphen : place m hyphen (m + 1) (reading m) ≡ past_margin
    unfolding place
    place_hyphen = ground arith

    read_letter :
        (i f : ℕ) → i < m → wrapt_loop (suc f) s m (reading i) ≡ wrapt_loop f s m (reading (i + 1))
    read_letter i f h =
        let fits : ltb m (place m char (i + 1) (reading i)).cnt ≡ false =
          rw (place_letter i h) (ground arith) in
        round_on s m f (reading i) char (i + 1) (omega (arith, long_enough)) (at_letter i h) fits
        ∙ ap (λ (l : Layout). wrapt_loop f s m (record l { i = i + 1 })) (place_letter i h)

    read_letters :
        (j i f : ℕ) → i + j ≡ m → wrapt_loop (j + f) s m (reading i) ≡ wrapt_loop f s m (reading m)
    read_letters zero i f h =
        let there : i ≡ m = omega arith in
        ap₂ (λ g k. wrapt_loop g s m (reading k)) (omega arith) there
    read_letters (suc j) i f h =
        let more : suc j + f ≡ suc (j + f) = omega arith in
        rw more (read_letter i (j + f) (omega arith) ∙ read_letters j (i + 1) f (omega arith))

    -- Behind the hyphen.
    abbrev behind : Layout
    behind = record {
      i = m + 1;
      front = m + 1;
      cnt = 0;
      breakhere = 0;
      resume = m + 1;
      dobreak = false;
    }

    at_the_hyphen :
        (f : ℕ)
        → wrapt_loop (suc f) s m (reading m)
          ≡ (wrapt_loop f s m behind >>= λ more. ok (replicate m b'x' ∷ more))
    at_the_hyphen f =
        let past : ltb m (place m hyphen (m + 1) (reading m)).cnt ≡ true =
          rw place_hyphen (ground arith) in
        round_break s m f (reading m) hyphen (m + 1) (replicate m b'x') long_enough at_hyphen past
          (rw place_hyphen the_line)
        ∙ ap
            (λ (l : Layout).
              wrapt_loop f s m (next_line l) >>= λ more. ok (replicate m b'x' ∷ more))
            place_hyphen

    behind-Inv : Inv s m behind
    behind-Inv = record {
      seen = end refl refl;
      fits = omega arith;
      within = omega (arith, long_enough);
      breakable = λ e. cc;
      plain = λ e. none_yet;
    }

    abbrev fuel_left : ℕ
    fuel_left = (length s + 2) * (length s + 2) - (m + 1)

    wrapt_by_line :
        wrapt s m ≡ (wrapt_loop fuel_left s m behind >>= λ more. ok (replicate m b'x' ∷ more))
    unfolding wrapt
    wrapt_by_line =
        let split : (length s + 2) * (length s + 2) ≡ m + suc fuel_left =
          omega (arith, m_below_square (length s) m long_enough) in
        ap (λ n. wrapt_loop n s m start) split
        ∙ (read_letters m 0 (suc fuel_left) (omega arith) ∙ at_the_hyphen fuel_left)

-- `m` letters and a hyphen, wrapped at a margin of `m`: the first line is the letters, and the
-- lines that follow start behind the hyphen, which is on no line.
wrapt_loses_hyphen :
    (m : ℕ) (rest : List ℕ) (lines : List (List ℕ))
    → 0 < m
    → m < 2 ^ 64 - 1
    → wrapt (word_and_hyphen m rest) m ≡ ok lines
    → (more : List (List ℕ)) × (lines ≡ replicate m b'x' ∷ more)
      × Lines (word_and_hyphen m rest) m (m + 1) more
wrapt_loses_hyphen m rest lines pos small e =
    go (wrapt_loop (fuel_left m rest small) (word_and_hyphen m rest) m (behind m rest small))
      (wrapt_loop-Wrapped (word_and_hyphen m rest) m pos small _ _ (behind-Inv m rest small)
        (enough (length (word_and_hyphen m rest)) m (long_enough m rest)))
      (sym (wrapt_by_line m rest small) ∙ e)
  where
    go :
        (r : Outcome (List (List ℕ)))
        → Wrapped (word_and_hyphen m rest) m (m + 1) r
        → (r >>= λ more. ok (replicate m b'x' ∷ more)) ≡ ok lines
        → (more : List (List ℕ)) × (lines ≡ replicate m b'x' ∷ more)
          × Lines (word_and_hyphen m rest) m (m + 1) more
    go (ok more) w d = (more, ground arith, w)
    go (stop x) w d = cc
