-- ===== src/Base64/Encoder/Lines.antt =====
-- The lines that `b64meta_encode` writes.
use lua_conmanorg.Base64.Object.{Base64, transtable_at}
use lua_conmanorg.Base64.Encoder.{padding, encode}
use lua_conmanorg.Base64.Encoder.Rendering.{
  IsByte, digit, line_end, ends_line, rendering, encode-rendering,
}
use lua_conmanorg.Prelude.{
  ℕ, ◌+◌, ◌/◌, ◌%◌, ◌^◌, ◌≤◌, ◌<◌, Bool, true, ◌&&◌, List, [], ◌∷◌, ◌++◌, ◌==◌, leb, if◌then◌else◌,
  All, ok, ◌≡◌, ◌≢◌, refl, arith, Bool-cases, inl, inr,
}

-- Every line that a line end closes has `lo` to `lo + 3` characters, and the last line has at most
-- `lo + 3`; `col` characters of the current line stand before the text.
unfoldable pub lines_ok : ℕ → ℕ → List ℕ → Bool
lines_ok lo col [] = leb col (lo + 3)
lines_ok lo col (c ∷ cs) =
    let closed = lines_ok lo 0 cs in
    let longer = lines_ok lo (col + 1) cs in
    if c == b'\n' then leb lo col && leb col (lo + 3) && closed else longer

lines_ok-cons :
    (lo col c : ℕ) (cs : List ℕ) → c ≢ b'\n' → lines_ok lo col (c ∷ cs) ≡ lines_ok lo (col + 1) cs
unfolding lines_ok
lines_ok-cons lo col c cs h = ground arith

lines_ok-newline :
    (lo col : ℕ) (cs : List ℕ)
    → lo ≤ col
    → col ≤ lo + 3
    → lines_ok lo col (b'\n' ∷ cs) ≡ lines_ok lo 0 cs
unfolding lines_ok
lines_ok-newline lo col cs h k = ground arith

-- No character of a codec's table, nor its pad, is a line end.
pub record HasNoNewline (b64 : Base64) : Type 0 where
  pub table : (i : ℕ) → i < 64 → transtable_at b64 i ≢ b'\n'
  pub pad : b64.pad ≢ b'\n'

module _ (b64 : Base64) (n : HasNoNewline b64) (short : b64.len < 2 ^ 31) where
  lines_ok-digit :
      (col k v : ℕ) (cs : List ℕ)
      → lines_ok b64.len col (digit b64 k v ∷ cs) ≡ lines_ok b64.len (col + 1) cs
  lines_ok-digit col k v cs =
      lines_ok-cons b64.len col (digit b64 k v) cs (n.table (v / 64 ^ k % 64) (omega arith))

  lines_ok-padding : (col : ℕ) → col < b64.len + 3 → lines_ok b64.len col (padding b64) ≡ true
  unfolding lines_ok
  lines_ok-padding col h = ground (arith, n.pad)

  lines_ok-paddings :
      (col : ℕ) → col < b64.len + 2 → lines_ok b64.len col (padding b64 ++ padding b64) ≡ true
  unfolding lines_ok
  lines_ok-paddings col h = ground (arith, n.pad)

  -- A group that ends the line, and one that does not.
  lines_ok-group :
      (len : ℕ) (cs : List ℕ)
      → len % 4 ≡ 0
      → len < b64.len
      → let len' = (len + 4) % 2 ^ 64 in
        let full = ends_line b64 len' in
        lines_ok b64.len (len + 1 + 1 + 1 + 1) (line_end full ++ cs)
        ≡ lines_ok b64.len (if full then 0 else len') cs
  lines_ok-group len cs m h =
      let len' = (len + 4) % 2 ^ 64 in
      let e : len + 1 + 1 + 1 + 1 ≡ len' = omega arith in
      elim (Bool-cases (ends_line b64 len')) [
        | inl full ↦ rw (e, full) (lines_ok-newline b64.len len' cs (ground arith) (omega arith))
        | inr more ↦ rw (e, more) refl
      ]

  lines_ok-rendering :
      (bytes : List ℕ) (len : ℕ)
      → len % 4 ≡ 0
      → len < b64.len
      → lines_ok b64.len len (rendering b64 len bytes) ≡ true
  unfolding rendering
  lines_ok-rendering [] len m h = unfold lines_ok in ground arith
  lines_ok-rendering (x ∷ []) len m h =
      rw (lines_ok-digit, lines_ok-digit) (lines_ok-paddings (len + 1 + 1) (omega arith))
  lines_ok-rendering (x ∷ y ∷ []) len m h =
      rw (lines_ok-digit, lines_ok-digit, lines_ok-digit)
        (lines_ok-padding (len + 1 + 1 + 1) (omega arith))
  lines_ok-rendering (x ∷ y ∷ z ∷ rest) len m h =
      let len' = (len + 4) % 2 ^ 64 in
      let next = if ends_line b64 len' then 0 else len' in
      rw
        (
          lines_ok-digit,
          lines_ok-digit,
          lines_ok-digit,
          lines_ok-digit,
          lines_ok-group len (rendering b64 next rest) m h,
        )
        (lines_ok-rendering rest next (ground arith) (ground arith))

-- With a line length of 1 to 2^31 - 1 characters, and no line end in the table or the pad, every
-- line that `encode` closes has `len` to `len + 3` characters, and the last has at most `len + 3`.
encode-lines_ok :
    (b64 : Base64) (bytes : List ℕ)
    → HasNoNewline b64
    → 0 < b64.len
    → b64.len < 2 ^ 31
    → All IsByte bytes
    → (text : List ℕ) × (encode b64 bytes ≡ ok text) × (lines_ok b64.len 0 text ≡ true)
encode-lines_ok b64 bytes n pos short h = (
  rendering b64 0 bytes,
  encode-rendering b64 bytes h,
  lines_ok-rendering b64 n short bytes 0 refl pos,
)
