-- ===== src/Base64/RoundTrip.antt =====
-- `decode` on what `encode` writes.
pub mod Bytes
pub mod LineEnds
use mathlib.Core.List.{append-nil, append_assoc}
use lua_conmanorg.Base64.Object.{size_max, Base64, transtable_at, peek}
use lua_conmanorg.Base64.Encoder.{padding, encode}
use lua_conmanorg.Base64.Encoder.Rendering.{
  IsByte, digit, line_end, ends_line, rendering, encode-rendering,
}
use lua_conmanorg.Base64.Readout.{Scan, took, refused, Quad, readout4}
use lua_conmanorg.Base64.Readout.Characters.{IsUsable}
use lua_conmanorg.Base64.Readout.Groups.{
  readout4_full, readout4_three, readout4_two, readout4_last_newline,
}
use lua_conmanorg.Base64.Decoder.{
  byte_a, byte_b, byte_c, extraneous, group_bytes, decode_loop, decode,
}
use lua_conmanorg.Base64.Sextets.{byte_a_lem, byte_b_lem, byte_c_lem}
use lua_conmanorg.Prelude.{
  ℕ, zero, suc, ◌+◌, ◌*◌, ◌/◌, ◌%◌, ◌^◌, ◌≤◌, ◌<◌, Bool, true, false, not, ◌&&◌, ◌||◌, Option, none,
  some, List, [], ◌∷◌, ◌++◌, ◌==◌, leb, ltb, if◌then◌else◌, length, length-append, All, Outcome, ok,
  stop, assertion, ◌≡◌, ◌≢◌, refl, sym, ap, ap₂, ◌∙◌, arith, Bool-cases, inl, inr,
}
use LineEnds.{ends_in_newline, ends_in_newline-group, ends_in_newline-three, ends_in_newline-two}
use Bytes.{quad_of, three_bytes, quad_of_two, two_bytes, quad_of_one, one_byte}

-- What the decoder makes of a written text: the bytes, unless it ends in a line end.
abbrev read_back : Bool → List ℕ → Outcome (Option (List ℕ))
read_back cut bytes = if cut then stop assertion else ok (some bytes)

read_back_ok :
    (text bytes bytes' : List ℕ)
    → ends_in_newline text ≡ false
    → bytes ≡ bytes'
    → ok (some bytes) ≡ read_back (ends_in_newline text) bytes'
read_back_ok text bytes bytes' e p = rw e (ap (λ t. ok (some t)) p)

module _ (beyond : List ℕ) (b64 : Base64) where
  -- One round of the decoder that is not the last.
  pub decode_loop_round :
      (fuel : ℕ) (b : List ℕ) (skip : ℕ) (text : List ℕ) (q : Quad) (skip' : ℕ) (text' : List ℕ)
      → peek text ≢ 0
      → readout4 beyond b64 skip text ≡ took q skip' text'
      → skip' ≤ 2
      → extraneous skip' q ≡ false
      → decode_loop beyond b64 (suc fuel) b skip text
        ≡ decode_loop beyond b64 fuel (b ++ group_bytes skip' q) skip' text'
  unfolding decode_loop
  decode_loop_round fuel b skip text q skip' text' h e le ex = rw e (ground arith)

  pub decode_loop_end :
      (fuel : ℕ) (b : List ℕ) (skip : ℕ) → decode_loop beyond b64 (suc fuel) b skip [] ≡ ok (some b)
  unfolding decode_loop
  decode_loop_end fuel b skip = refl

  module _ (u : IsUsable beyond b64) where
    pub peek_group :
        (nl : Bool) (i : ℕ) (cs : List ℕ)
        → i < 64
        → peek (line_end nl ++ (transtable_at b64 i ∷ cs)) ≢ 0
    peek_group true i cs h = ground arith
    peek_group false i cs h = u.not_nul i h

    decode_one :
        (x fuel : ℕ) (b : List ℕ) (len : ℕ) (nl : Bool)
        → x < 256
        → (nl ≡ true → b64.len < size_max)
        → let text = line_end nl ++ rendering b64 len (x ∷ []) in
          decode_loop beyond b64 (suc (suc fuel)) b 0 text
          ≡ read_back (ends_in_newline text) (b ++ x ∷ [])
    unfolding rendering
    decode_one x fuel b len nl h short =
        let i = x * 16 / 64 ^ 1 % 64 in
        let j = x * 16 / 64 ^ 0 % 64 in
        decode_loop_round (suc fuel) b 0 _ (quad_of_one (x * 16)) 2 []
          (peek_group nl i (transtable_at b64 j ∷ padding b64 ++ padding b64) (omega arith))
          (readout4_two beyond b64 u nl short i j (omega arith) (omega arith)) (omega arith)
          (one_byte x h).1
        ∙ decode_loop_end fuel (b ++ group_bytes 2 (quad_of_one (x * 16))) 2
        ∙ read_back_ok _ _ _ (ends_in_newline-two beyond b64 u nl i j (omega arith))
            (ap (◌++◌ b) (one_byte x h).0)

    decode_two :
        (x y fuel : ℕ) (b : List ℕ) (len : ℕ) (nl : Bool)
        → x < 256
        → y < 256
        → (nl ≡ true → b64.len < size_max)
        → let text = line_end nl ++ rendering b64 len (x ∷ y ∷ []) in
          decode_loop beyond b64 (suc (suc fuel)) b 0 text
          ≡ read_back (ends_in_newline text) (b ++ x ∷ y ∷ [])
    unfolding rendering
    decode_two x y fuel b len nl hx hy short =
        let v = (x * 256 + y) * 4 in
        let i = v / 64 ^ 2 % 64 in
        let j = v / 64 ^ 1 % 64 in
        let k = v / 64 ^ 0 % 64 in
        decode_loop_round (suc fuel) b 0 _ (quad_of_two v) 1 []
          (peek_group nl i (transtable_at b64 j ∷ transtable_at b64 k ∷ padding b64) (omega arith))
          (readout4_three beyond b64 u nl short i j k (omega arith) (omega arith) (omega arith))
          (omega arith) (two_bytes x y hx hy).1
        ∙ decode_loop_end fuel (b ++ group_bytes 1 (quad_of_two v)) 1
        ∙ read_back_ok _ _ _ (ends_in_newline-three beyond b64 u nl i j k (omega arith))
            (ap (◌++◌ b) (two_bytes x y hx hy).0)

    -- A whole group is read in one round, and the rest follows.
    decode_three :
        (x y z fuel : ℕ) (b cs : List ℕ) (nl : Bool)
        → x < 256
        → y < 256
        → z < 256
        → (nl ≡ true → b64.len < size_max)
        → let v = x * 65536 + y * 256 + z in
          decode_loop beyond b64
            (suc fuel)
            b
            0
            (line_end nl ++ (digit b64 3 v ∷ digit b64 2 v ∷ digit b64 1 v ∷ digit b64 0 v ∷ cs))
          ≡ decode_loop beyond b64 fuel (b ++ (x ∷ y ∷ z ∷ [])) 0 cs
    decode_three x y z fuel b cs nl hx hy hz short =
        let v = x * 65536 + y * 256 + z in
        let i = v / 64 ^ 3 % 64 in
        decode_loop_round fuel b 0 _ (quad_of v) 0 cs
          (peek_group nl i (digit b64 2 v ∷ digit b64 1 v ∷ digit b64 0 v ∷ cs) (omega arith))
          (readout4_full beyond b64 u nl short i (v / 64 ^ 2 % 64) (v / 64 ^ 1 % 64)
            (v / 64 ^ 0 % 64) cs (omega arith) (omega arith) (omega arith) (omega arith))
          (omega arith) refl
        ∙ ap (λ t. decode_loop beyond b64 fuel (b ++ t) 0 cs) (three_bytes x y z hx hy hz)

    decode_loop-rendering :
        (bytes : List ℕ) (fuel : ℕ) (b : List ℕ) (len : ℕ) (nl : Bool)
        → All IsByte bytes
        → len % 4 ≡ 0
        → (nl ≡ true → b64.len < size_max)
        → length (line_end nl ++ rendering b64 len bytes) < fuel
        → decode_loop beyond b64 fuel b 0 (line_end nl ++ rendering b64 len bytes)
          ≡ read_back (ends_in_newline (line_end nl ++ rendering b64 len bytes)) (b ++ bytes)
    unfolding rendering
    decode_loop-rendering bytes zero b len nl h m short f = absurd (omega arith)
    decode_loop-rendering [] (suc fuel) b len true h m short f =
        unfold decode_loop ends_in_newline in
        rw (readout4_last_newline beyond b64 u (short refl)) refl
    decode_loop-rendering [] (suc fuel) b len false h m short f =
        unfold decode_loop ends_in_newline in rw append-nil refl
    decode_loop-rendering (x ∷ []) (suc zero) b len nl h m short f =
        absurd (omega (arith, length-append (line_end nl) (rendering b64 len (x ∷ []))))
    decode_loop-rendering (x ∷ []) (suc (suc fuel)) b len nl h m short f =
        decode_one x fuel b len nl h.0 short
    decode_loop-rendering (x ∷ y ∷ []) (suc zero) b len nl h m short f =
        absurd (omega (arith, length-append (line_end nl) (rendering b64 len (x ∷ y ∷ []))))
    decode_loop-rendering (x ∷ y ∷ []) (suc (suc fuel)) b len nl h m short f =
        decode_two x y fuel b len nl h.0 h.1.0 short
    decode_loop-rendering (x ∷ y ∷ z ∷ rest) (suc fuel) b len nl h m short f =
        let v = x * 65536 + y * 256 + z in
        let len' = (len + 4) % 2 ^ 64 in
        let full = ends_line b64 len' in
        let next = if full then 0 else len' in
        let cs = line_end full ++ rendering b64 next rest in
        decode_three x y z fuel b cs nl h.0 h.1.0 h.1.1.0 short
        ∙ decode_loop-rendering rest fuel (b ++ (x ∷ y ∷ z ∷ [])) next full h.1.1.1 (ground arith)
            (λ e. ground arith)
            (omega (
              arith,
              length-append (line_end nl)
                  (digit b64 3 v ∷ digit b64 2 v ∷ digit b64 1 v ∷ digit b64 0 v ∷ cs),
            ))
        ∙ ap₂ read_back
            (sym (
              ends_in_newline-group beyond b64 u nl (v / 64 ^ 3 % 64) (v / 64 ^ 2 % 64)
                (v / 64 ^ 1 % 64) (v / 64 ^ 0 % 64) cs (omega arith)))
            (append_assoc b (x ∷ y ∷ z ∷ []) rest)

-- For a usable codec and any bytes, `encode` succeeds, and `decode` on its text gives the bytes
-- back exactly where the text does not end in a line end; where it does, an assertion fails.
pub decode-encode :
    (beyond : List ℕ) (b64 : Base64) (bytes : List ℕ)
    → IsUsable beyond b64
    → All IsByte bytes
    → (text : List ℕ) × (encode b64 bytes ≡ ok text)
      × (decode beyond b64 text
          ≡ (if ends_in_newline text then stop assertion else ok (some bytes)))
decode-encode beyond b64 bytes u h = (
  rendering b64 0 bytes,
  encode-rendering b64 bytes h,
  unfold decode in
      decode_loop-rendering beyond b64 u bytes _ [] 0 false h refl (λ e. cc) (omega arith),
)
