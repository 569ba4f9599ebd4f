-- ===== src/Bin2c.antt =====
-- build/bin2c.c, which writes files as C arrays. zlib's deflate() and the contents of the files are
-- parameters.
pub mod ReadBack
mod Tests
use lua_conmanorg.Prelude.{
  ℕ, zero, suc, ◌+◌, ◌/◌, ◌%◌, ltb, ◌==◌, not, Bool, true, false, ◌||◌, if◌then◌else◌, List, [],
  ◌∷◌, ◌++◌, length, take, Option, none, some, codes, pos, decimal, same_string,
}

-- A digit of `%02X`, which has two of them for a byte.
unfoldable pub hex_digit : ℕ → ℕ
hex_digit d = if ltb d 10 then b'0' + d else 55 + d

unfoldable pub byte_text : ℕ → List ℕ
byte_text b = codes "0x" ++ (hex_digit (b / 16) ∷ (hex_digit (b % 16) ∷ codes " , "))

-- The loop over the bytes, with `cnt`; eight of them make a line.
unfoldable pub process_loop : ℕ → List ℕ → List ℕ
process_loop cnt [] = []
process_loop cnt (b ∷ data_bytes) =
    (if cnt == 8 then codes "\n  " else [])
    ++ (byte_text b ++ process_loop (suc (if cnt == 8 then 0 else cnt)) data_bytes)

abbrev pub head_text : List ℕ
head_text = codes "#include <stddef.h>\nconst unsigned char c_"

unfoldable pub size_text : List ℕ → ℕ → List ℕ
size_text tag size =
    codes "\n};\n\nconst size_t c_"
    ++ (tag ++ (codes "_size = " ++ (decimal (pos size) ++ codes ";\n")))

unfoldable pub ucsize_text : List ℕ → ℕ → ℕ → List ℕ
ucsize_text tag size ucsize =
    if size == ucsize
    then []
    else codes "const size_t c_"
      ++ (tag ++ (codes "_ucsize = " ++ (decimal (pos ucsize) ++ codes ";\n")))

-- What is written for one array; `size` is the length of the bytes.
unfoldable pub process : List ℕ → ℕ → List ℕ → List ℕ
process bytes ucsize tag =
    head_text
    ++ (tag
        ++ (codes "[] =\n{"
            ++ (process_loop 8 bytes
                ++ (size_text tag (length bytes) ++ ucsize_text tag (length bytes) ucsize))))

-- `tag` of the option -t.
unfoldable pub tag_of : List ℕ → List ℕ
tag_of [] = []
tag_of (c ∷ text) = (if (c == b'-') || (c == b'.') then b'_' else c) ∷ tag_of text

-- The level is from 0 to 9, or none for Z_DEFAULT_COMPRESSION.
abbrev pub Level : Type 0
Level = Option ℕ

-- `deflate` is the whole stream of zlib, or nothing where deflateInit() fails; the buffer holds as many
-- bytes as there were, and what is behind it is lost.
unfoldable pub compressed : List ℕ → Option (List ℕ) → Option (List ℕ)
compressed bytes none = none
compressed bytes (some stream) = some (take (length bytes) stream)

-- The buffer is asked of `memory` by its size.
unfoldable pub compress_data :
    (ℕ → Bool) → (Level → List ℕ → Option (List ℕ)) → Level → List ℕ → Option (List ℕ)
compress_data memory deflate (some zero) bytes = some bytes
compress_data memory deflate (some (suc level)) bytes =
    if memory (length bytes) then compressed bytes (deflate (some (suc level)) bytes) else none
compress_data memory deflate none bytes =
    if memory (length bytes) then compressed bytes (deflate none bytes) else none

-- The loop of `main` over the files, whose bytes are none where load_file() fails: what is written,
-- and whether the program ends well. What was written before an error stays.
unfoldable pub finished : List ℕ → List ℕ → Option (List ℕ) → List ℕ × Bool → List ℕ × Bool
finished tag bytes none rest = ([], false)
finished tag bytes (some packed) rest = (process packed (length bytes) tag ++ rest.0, rest.1)

unfoldable pub files_loop :
    (ℕ → Bool)
    → (Level → List ℕ → Option (List ℕ))
    → Level
    → List ℕ
    → List (Option (List ℕ))
    → List ℕ × Bool
files_loop memory deflate level tag [] = ([], true)
files_loop memory deflate level tag (none ∷ files) = ([], false)
files_loop memory deflate level tag (some bytes ∷ files) =
    finished tag bytes (compress_data memory deflate level bytes)
      (files_loop memory deflate level tag files)
