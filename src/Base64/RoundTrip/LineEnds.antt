-- ===== src/Base64/RoundTrip/LineEnds.antt =====
-- Whether a written text ends in a line end.
use lua_conmanorg.Base64.Object.{Base64, transtable_at}
use lua_conmanorg.Base64.Encoder.{padding}
use lua_conmanorg.Base64.Encoder.Rendering.{line_end}
use lua_conmanorg.Base64.Readout.Characters.{IsUsable}
use lua_conmanorg.Prelude.{
  ℕ, ◌<◌, Bool, true, false, List, [], ◌∷◌, ◌++◌, ◌==◌, ◌≡◌, ◌≢◌, refl, arith,
}

-- Whether the last character of a text is a line end.
unfoldable pub ends_in_newline : List ℕ → Bool
ends_in_newline [] = false
ends_in_newline (c ∷ []) = c == b'\n'
ends_in_newline (c ∷ d ∷ cs) = ends_in_newline (d ∷ cs)

ends_in_newline-cons :
    (c : ℕ) (cs : List ℕ) → c ≢ b'\n' → ends_in_newline (c ∷ cs) ≡ ends_in_newline cs
unfolding ends_in_newline
ends_in_newline-cons c [] h = ground arith
ends_in_newline-cons c (d ∷ cs) h = refl

module _ (beyond : List ℕ) (b64 : Base64) (u : IsUsable beyond b64) where
  -- The text of a group ends in a line end exactly where what follows the group does.
  pub ends_in_newline-group :
      (nl : Bool) (i j k l : ℕ) (cs : List ℕ)
      → l < 64
      → ends_in_newline (
          line_end nl
          ++ (transtable_at b64 i
              ∷ transtable_at b64 j
              ∷ transtable_at b64 k
              ∷ transtable_at b64 l
              ∷ cs))
        ≡ ends_in_newline cs
  unfolding ends_in_newline
  ends_in_newline-group true i j k l cs h =
      ends_in_newline-cons (transtable_at b64 l) cs (u.not_newline l h)
  ends_in_newline-group false i j k l cs h =
      ends_in_newline-cons (transtable_at b64 l) cs (u.not_newline l h)

  ends_in_newline-padding : (c : ℕ) → c ≢ b'\n' → ends_in_newline (c ∷ padding b64) ≡ false
  unfolding ends_in_newline
  ends_in_newline-padding c h = ground (arith, u.pad_not_newline)

  pub ends_in_newline-three :
      (nl : Bool) (i j k : ℕ)
      → k < 64
      → ends_in_newline (
          line_end nl
          ++ (transtable_at b64 i ∷ transtable_at b64 j ∷ transtable_at b64 k ∷ padding b64))
        ≡ false
  unfolding ends_in_newline
  ends_in_newline-three true i j k h =
      ends_in_newline-padding (transtable_at b64 k) (u.not_newline k h)
  ends_in_newline-three false i j k h =
      ends_in_newline-padding (transtable_at b64 k) (u.not_newline k h)

  pub ends_in_newline-two :
      (nl : Bool) (i j : ℕ)
      → j < 64
      → ends_in_newline
          (line_end nl ++ (transtable_at b64 i ∷ transtable_at b64 j ∷ padding b64 ++ padding b64))
        ≡ false
  unfolding ends_in_newline
  ends_in_newline-two true i j h = ground (arith, u.pad_not_newline, u.not_newline j h)
  ends_in_newline-two false i j h = ground (arith, u.pad_not_newline, u.not_newline j h)
