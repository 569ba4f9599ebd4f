-- ===== src/Bin2c/ReadBack.antt =====
-- The arrays that build/bin2c.c writes are read back.
use mathlib.Core.List.{append_assoc}
use lua_conmanorg.Bin2c.{
  hex_digit, byte_text, process_loop, head_text, size_text, ucsize_text, process, compress_data,
  finished, files_loop,
}
use lua_conmanorg.Prelude.{
  ℕ, none, leb, ◌&&◌, ◌||◌, suc, ◌+◌, ◌-◌, ◌*◌, ◌/◌, ◌%◌, ◌<◌, ◌≡◌, ◌≢◌, refl, ◌==◌, Bool, true,
  false, if◌then◌else◌, List, [], ◌∷◌, ◌++◌, length, Option, some, codes, All, ap, ◌∙◌, arith,
}

-- A reader of the initializer of a C array of hexadecimal numbers with two digits: white space may stand
-- between the tokens, and a comma behind each number. Anything else is no such initializer.
pub data Place : Type 0 where
  item : Place
  zero_read : Place
  high : Place
  low : ℕ → Place
  number_read : Place

abbrev pub is_blank : ℕ → Bool
is_blank c = (c == 32) || (c == b'\n')

unfoldable pub digit_value : ℕ → Option ℕ
digit_value c =
    if leb b'0' c && leb c b'9'
    then some (c - b'0')
    else if leb b'A' c && leb c b'F'
    then some (c - 55)
    else none

unfoldable pub with_digit : (ℕ → Option (List ℕ)) → Option ℕ → Option (List ℕ)
with_digit more none = none
with_digit more (some d) = more d

unfoldable pub with_number : ℕ → Option (List ℕ) → Option (List ℕ)
with_number n none = none
with_number n (some rest) = some (n ∷ rest)

unfoldable pub read_from : Place → List ℕ → Option (List ℕ)
read_from place [] = none
read_from item (c ∷ text) =
    let blank = read_from item text in
    let number = read_from zero_read text in
    if c == b'}' then some [] else if is_blank c then blank else if c == b'0' then number else none
read_from zero_read (c ∷ text) = let rest = read_from high text in if c == b'x' then rest else none
read_from high (c ∷ text) = with_digit (λ d. read_from (low d) text) (digit_value c)
read_from (low h) (c ∷ text) =
    with_digit (λ d. with_number (h * 16 + d) (read_from number_read text)) (digit_value c)
read_from number_read (c ∷ text) =
    let blank = read_from number_read text in
    let next = read_from item text in
    if c == b'}' then some [] else if is_blank c then blank else if c == b',' then next else none

unfoldable pub after_brace : List ℕ → List ℕ
after_brace [] = []
after_brace (c ∷ text) = let rest = after_brace text in if c == b'{' then text else rest

abbrev pub initializer : List ℕ → Option (List ℕ)
initializer text = read_from item (after_brace text)

abbrev pub NoBrace : ℕ → Type 0
NoBrace c = c ≢ b'{'

after_brace-append :
    (tag text : List ℕ) → All NoBrace tag → after_brace (tag ++ text) ≡ after_brace text
unfolding after_brace
after_brace-append [] text h = refl
after_brace-append (c ∷ tag) text (d, h) = ground (arith, after_brace-append tag text h)

digit_value_lem : (d : ℕ) → d < 16 → digit_value (hex_digit d) ≡ some d
unfolding digit_value hex_digit
digit_value_lem d h = ground arith

read-byte_text :
    (b : ℕ) (text : List ℕ)
    → b < 256
    → read_from item (byte_text b ++ text) ≡ with_number b (read_from item text)
unfolding read_from byte_text with_digit
read-byte_text b text h =
    rw (digit_value_lem (b / 16) (omega arith), digit_value_lem (b % 16) (omega arith))
      (ap (λ v. with_number v (read_from item text)) (omega arith))

abbrev pub Byte : ℕ → Type 0
Byte b = b < 256

abbrev separator : Bool → List ℕ
separator full = if full then codes "\n  " else []

read-separator :
    (full : Bool) (text : List ℕ) → read_from item (separator full ++ text) ≡ read_from item text
unfolding read_from
read-separator true text = refl
read-separator false text = refl

read-process_loop :
    (cnt : ℕ) (bytes rest : List ℕ)
    → All Byte bytes
    → read_from item (process_loop cnt bytes ++ (codes "\n};" ++ rest)) ≡ some bytes
unfolding read_from process_loop with_number
read-process_loop cnt [] rest h = refl
read-process_loop cnt (b ∷ bytes) rest (p, h) =
    let more = process_loop (suc (if cnt == 8 then 0 else cnt)) bytes in
    let tail = codes "\n};" ++ rest in
    ap (read_from item) (
      append_assoc (separator (cnt == 8)) (byte_text b ++ more) tail
      ∙ ap (λ t. separator (cnt == 8) ++ t) (append_assoc (byte_text b) more tail))
    ∙ read-separator (cnt == 8) (byte_text b ++ (more ++ tail))
    ∙ read-byte_text b (more ++ tail) p
    ∙ ap (with_number b) (read-process_loop (suc (if cnt == 8 then 0 else cnt)) bytes rest h)

process_lem :
    (bytes : List ℕ) (ucsize : ℕ) (tag rest : List ℕ)
    → All NoBrace tag
    → All Byte bytes
    → initializer (process bytes ucsize tag ++ rest) ≡ some bytes
unfolding process size_text after_brace
process_lem bytes ucsize tag rest t h =
    let sizes = size_text tag (length bytes) ++ ucsize_text tag (length bytes) ucsize in
    let body = process_loop 8 bytes ++ sizes in
    ap (λ text. initializer (head_text ++ text)) (append_assoc tag (codes "[] =\n{" ++ body) rest)
    ∙ ap (read_from item) (after_brace-append tag (codes "[] =\n{" ++ (body ++ rest)) t)
    ∙ ap (read_from item) (append_assoc (process_loop 8 bytes) sizes rest)
    ∙ read-process_loop 8 bytes _ h

-- The first array that the program writes, under a tag without a brace, has an initializer of
-- hexadecimal numbers with commas between them, up to a closing brace, and these are just the bytes of the
-- first file as compress_data() leaves them, in order, whatever files follow and whether they can be read.
pub files-initializer :
    (memory : ℕ → Bool) (deflate : Option ℕ → List ℕ → Option (List ℕ)) (level : Option ℕ)
    (tag bytes packed : List ℕ) (files : List (Option (List ℕ)))
    → All NoBrace tag
    → All Byte packed
    → compress_data memory deflate level bytes ≡ some packed
    → initializer (files_loop memory deflate level tag (some bytes ∷ files)).0 ≡ some packed
unfolding files_loop finished
files-initializer memory deflate level tag bytes packed files t h e =
    rw e (process_lem packed (length bytes) tag (files_loop memory deflate level tag files).0 t h)
