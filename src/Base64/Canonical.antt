-- ===== src/Base64/Canonical.antt =====
-- The spellings that `decode` of src/base64.c accepts in strict mode.
use mathlib.Core.List.{append-nil, append_assoc}
use lua_conmanorg.Base64.Object.{size_max, Base64, transtable_at, peek}
use lua_conmanorg.Base64.Encoder.{padding, encode}
use lua_conmanorg.Base64.Encoder.Rendering.{IsByte, digit, ends_line, rendering, encode-rendering}
use lua_conmanorg.Base64.Readout.{took, Quad, readout4}
use lua_conmanorg.Base64.Readout.Characters.{IsUsable}
use lua_conmanorg.Base64.Readout.Groups.{readout4_full, readout4_three, readout4_two, readout4_one}
use lua_conmanorg.Base64.Decoder.{
  byte_a, byte_b, byte_c, extraneous, group_bytes, decode_loop, decode,
}
use lua_conmanorg.Base64.Sextets.{byte_a_lem, byte_b_lem, byte_c_lem}
use lua_conmanorg.Base64.RoundTrip.{decode_loop_end, peek_group}
use lua_conmanorg.Prelude.{
  ℕ, zero, suc, ◌+◌, ◌*◌, ◌/◌, ◌%◌, ◌^◌, ◌≤◌, ◌<◌, Bool, true, false, Option, none, some, not, leb,
  if◌then◌else◌, List, [], ◌∷◌, ◌++◌, length, All, Outcome, ok, stop, assertion, ◌≡◌, ◌≢◌, refl, ap,
  ap₂, ◌∙◌, arith,
}

abbrev pub IsSextet : ℕ → Type 0
IsSextet i = i < 64

-- The text of a list of sextets, with the padding that fills its last group.
unfoldable pub spelling : Base64 → List ℕ → List ℕ
spelling b64 [] = []
spelling b64 (i ∷ []) = transtable_at b64 i ∷ []
spelling b64 (i ∷ j ∷ []) = transtable_at b64 i ∷ transtable_at b64 j ∷ padding b64 ++ padding b64
spelling b64 (i ∷ j ∷ k ∷ []) =
    transtable_at b64 i ∷ transtable_at b64 j ∷ transtable_at b64 k ∷ padding b64
spelling b64 (i ∷ j ∷ k ∷ l ∷ rest) =
    transtable_at b64 i
    ∷ transtable_at b64 j
    ∷ transtable_at b64 k
    ∷ transtable_at b64 l
    ∷ spelling b64 rest

-- What a successful `decode` of a text says: its bytes are spelled by the text, at any column.
record Spells (b64 : Base64) (b out text : List ℕ) : Type 0 where
  bytes : List ℕ
  added : out ≡ b ++ bytes
  are_bytes : All IsByte bytes
  spelled : (len : ℕ) → len % 4 ≡ 0 → rendering b64 len bytes ≡ text

-- A digit of a number that has it.
digit-eq : (b64 : Base64) (k v i : ℕ) → v / 64 ^ k % 64 ≡ i → digit b64 k v ≡ transtable_at b64 i
digit-eq b64 k v i e = ap (transtable_at b64) e

strict_round :
    {A : Type 0} (skip : ℕ) (ex : Bool) (r : Outcome (Option A)) (out : A)
    → (if not (leb skip 2) then stop assertion else if ex then ok none else r) ≡ ok (some out)
    → (skip ≤ 2) × (ex ≡ false) × (r ≡ ok (some out))
strict_round skip ex r out h = ground arith

module _ (beyond : List ℕ) (b64 : Base64) (u : IsUsable beyond b64) (strict : b64.strict ≡ true)
    (unbroken : b64.len ≡ size_max) where
  -- A round of a decoding that succeeds.
  accepted_round :
      (fuel : ℕ) (b : List ℕ) (text : List ℕ) (q : Quad) (skip' : ℕ) (text' out : List ℕ)
      → peek text ≢ 0
      → readout4 beyond b64 0 text ≡ took q skip' text'
      → decode_loop beyond b64 (suc fuel) b 0 text ≡ ok (some out)
      → (skip' ≤ 2)
        × (extraneous skip' q ≡ false)
        × (decode_loop beyond b64 fuel (b ++ group_bytes skip' q) skip' text' ≡ ok (some out))
  unfolding decode_loop
  accepted_round fuel b text q skip' text' out h e d =
      strict_round skip' (extraneous skip' q)
        (decode_loop beyond b64 fuel (b ++ group_bytes skip' q) skip' text') out
        (ground (arith, rw (e, decode_loop) at d))

  accepts_two :
      (i j fuel : ℕ) (b out : List ℕ)
      → i < 64
      → j < 64
      → decode_loop beyond b64 (suc (suc fuel)) b 0 (spelling b64 (i ∷ j ∷ [])) ≡ ok (some out)
      → Spells b64 b out (spelling b64 (i ∷ j ∷ []))
  unfolding spelling rendering
  accepts_two i j fuel b out hi hj e =
      let q : Quad = record { b0 = i; b1 = j; b2 = 0; b3 = 0 } in
      let cs = transtable_at b64 j ∷ padding b64 ++ padding b64 in
      let (_, exact, done) =
        accepted_round (suc fuel) b (transtable_at b64 i ∷ cs) q 2 [] out
          (peek_group beyond b64 u false i cs hi)
          (readout4_two beyond b64 u false (λ x. cc) i j hi hj) e in
      let a = byte_a_lem q hi hj in
      let nothing_over : j % 16 ≡ 0 = ground (arith, byte_b_lem q hj (omega arith)) in
      record {
        bytes = byte_a q ∷ [];
        added = ground (arith, rw decode_loop_end at done);
        are_bytes = omega arith;
        spelled = λ len m.
            ap₂ (λ s t. s ∷ t ∷ padding b64 ++ padding b64)
              (digit-eq b64 1 (byte_a q * 16) i (omega arith))
              (digit-eq b64 0 (byte_a q * 16) j (omega arith));
      }

  accepts_three :
      (i j k fuel : ℕ) (b out : List ℕ)
      → i < 64
      → j < 64
      → k < 64
      → decode_loop beyond b64 (suc (suc fuel)) b 0 (spelling b64 (i ∷ j ∷ k ∷ [])) ≡ ok (some out)
      → Spells b64 b out (spelling b64 (i ∷ j ∷ k ∷ []))
  unfolding spelling rendering
  accepts_three i j k fuel b out hi hj hk e =
      let q : Quad = record { b0 = i; b1 = j; b2 = k; b3 = 0 } in
      let v = (byte_a q * 256 + byte_b q) * 4 in
      let cs = transtable_at b64 j ∷ transtable_at b64 k ∷ padding b64 in
      let (_, exact, done) =
        accepted_round (suc fuel) b (transtable_at b64 i ∷ cs) q 1 [] out
          (peek_group beyond b64 u false i cs hi)
          (readout4_three beyond b64 u false (λ x. cc) i j k hi hj hk) e in
      let x = byte_a_lem q hi hj in
      let y = byte_b_lem q hj hk in
      let nothing_over : k % 4 ≡ 0 = ground (arith, byte_c_lem q hk (omega arith)) in
      let d2 = digit-eq b64 2 v i (omega arith) in
      let d1 = digit-eq b64 1 v j (omega arith) in
      let d0 = digit-eq b64 0 v k (omega arith) in
      record {
        bytes = byte_a q ∷ byte_b q ∷ [];
        added = ground (arith, rw decode_loop_end at done);
        are_bytes = omega arith;
        spelled = λ len m. cc (d2, d1, d0);
      }

  accepts_four :
      (i j k l fuel : ℕ) (is : List ℕ) (b out : List ℕ)
      → i < 64
      → j < 64
      → k < 64
      → l < 64
      → ((b' : List ℕ)
          → decode_loop beyond b64 fuel b' 0 (spelling b64 is) ≡ ok (some out)
          → Spells b64 b' out (spelling b64 is))
      → decode_loop beyond b64 (suc fuel) b 0 (spelling b64 (i ∷ j ∷ k ∷ l ∷ is)) ≡ ok (some out)
      → Spells b64 b out (spelling b64 (i ∷ j ∷ k ∷ l ∷ is))
  unfolding spelling rendering
  accepts_four i j k l fuel is b out hi hj hk hl ih e =
      let q : Quad = record { b0 = i; b1 = j; b2 = k; b3 = l } in
      let v = byte_a q * 65536 + byte_b q * 256 + byte_c q in
      let cs = transtable_at b64 j ∷ transtable_at b64 k ∷ transtable_at b64 l ∷ spelling b64 is in
      let (_, _, done) =
        accepted_round fuel b (transtable_at b64 i ∷ cs) q 0 (spelling b64 is) out
          (peek_group beyond b64 u false i cs hi)
          (readout4_full beyond b64 u false (λ x. cc) i j k l (spelling b64 is) hi hj hk hl) e in
      let later = ih (b ++ group_bytes 0 q) done in
      let x = byte_a_lem q hi hj in
      let y = byte_b_lem q hj hk in
      let z = byte_c_lem q hk hl in
      let d3 = digit-eq b64 3 v i (omega arith) in
      let d2 = digit-eq b64 2 v j (omega arith) in
      let d1 = digit-eq b64 1 v k (omega arith) in
      let d0 = digit-eq b64 0 v l (omega arith) in
      record {
        bytes = byte_a q ∷ byte_b q ∷ byte_c q ∷ later.bytes;
        added = later.added ∙ append_assoc b (group_bytes 0 q) later.bytes;
        are_bytes = (omega arith, (omega arith, (omega arith, later.are_bytes)));
        spelled = λ len m.
            let len' = (len + 4) % 2 ^ 64 in
            let no_break : ends_line b64 len' ≡ false = ground arith in
            rw no_break (cc (d3, d2, d1, d0, later.spelled len' (omega arith)));
      }

  accepts :
      (is : List ℕ) (fuel : ℕ) (b out : List ℕ)
      → All IsSextet is
      → length (spelling b64 is) < fuel
      → decode_loop beyond b64 fuel b 0 (spelling b64 is) ≡ ok (some out)
      → Spells b64 b out (spelling b64 is)
  unfolding spelling
  accepts is zero b out h f e = absurd (omega arith)
  accepts [] (suc fuel) b out h f e = record {
    bytes = [];
    added = ground (arith, rw decode_loop_end at e, append-nil b);
    are_bytes = tt;
    spelled = λ len m. unfold rendering in refl;
  }
  accepts (i ∷ []) (suc fuel) b out h f e =
      let q : Quad = record { b0 = i; b1 = 0; b2 = 0; b3 = 0 } in
      let (too_many, _, _) =
        accepted_round fuel b (transtable_at b64 i ∷ []) q 3 [] out
          (peek_group beyond b64 u false i [] h.0) (readout4_one beyond b64 u i h.0) e in
      absurd (omega arith)
  accepts (i ∷ j ∷ []) (suc zero) b out h f e = absurd (omega arith)
  accepts (i ∷ j ∷ []) (suc (suc fuel)) b out h f e = accepts_two i j fuel b out h.0 h.1.0 e
  accepts (i ∷ j ∷ k ∷ []) (suc zero) b out h f e = absurd (omega arith)
  accepts (i ∷ j ∷ k ∷ []) (suc (suc fuel)) b out h f e =
      accepts_three i j k fuel b out h.0 h.1.0 h.1.1.0 e
  accepts (i ∷ j ∷ k ∷ l ∷ is) (suc fuel) b out h f e =
      accepts_four i j k l fuel is b out h.0 h.1.0 h.1.1.0 h.1.1.1.0
        (λ b' d. accepts is fuel b' out h.1.1.1.1 (omega arith) d) e

-- In strict mode without line ends, a text of characters of the table with its padding that
-- `decode` accepts is the text that `encode` writes for the bytes it returns.
pub encode-decode_strict :
    (beyond : List ℕ) (b64 : Base64) (is bytes : List ℕ)
    → IsUsable beyond b64
    → b64.strict ≡ true
    → b64.len ≡ size_max
    → All IsSextet is
    → decode beyond b64 (spelling b64 is) ≡ ok (some bytes)
    → encode b64 bytes ≡ ok (spelling b64 is)
unfolding decode
encode-decode_strict beyond b64 is bytes u strict unbroken h e =
    let s = accepts beyond b64 u strict unbroken is _ [] bytes h (omega arith) e in
    rw s.added (encode-rendering b64 s.bytes s.are_bytes ∙ ap ok (s.spelled 0 refl))
