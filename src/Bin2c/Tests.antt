-- ===== src/Bin2c/Tests.antt =====
-- What build/bin2c.c writes for small files.
use lua_conmanorg.Bin2c.{
  compress_data, files_loop, process, process_loop, byte_text, hex_digit, size_text, ucsize_text,
  tag_of,
}
use lua_conmanorg.Bin2c.ReadBack.{initializer, files-initializer}
use lua_conmanorg.Prelude.{
  ℕ, Bool, true, ◌≡◌, refl, List, [], ◌∷◌, Option, none, some, codes, decimal, digits_from, arith,
}

abbrev no_zlib : Option ℕ → List ℕ → Option (List ℕ)
no_zlib level bytes = none

abbrev all_memory : ℕ → Bool
all_memory size = true

abbrev nine_bytes : List ℕ
nine_bytes = 0 ∷ 1 ∷ 15 ∷ 16 ∷ 127 ∷ 128 ∷ 171 ∷ 254 ∷ 255 ∷ []

not_compressed : compress_data all_memory no_zlib (some 0) nine_bytes ≡ some nine_bytes
unfolding compress_data
not_compressed = refl

files-initializer_example :
    initializer
      (files_loop all_memory no_zlib (some 0) (codes "t") (some nine_bytes ∷ (none ∷ []))).0
    ≡ some nine_bytes
files-initializer_example =
    files-initializer all_memory no_zlib (some 0) (codes "t") nine_bytes nine_bytes (none ∷ [])
      (ground arith, tt)
      (
        omega arith,
        (
          omega arith,
          (
            omega arith,
            (
              omega arith,
              (omega arith, (omega arith, (omega arith, (omega arith, (omega arith, tt))))),
            ),
          ),
        ),
      )
      not_compressed

process_run :
    process (171 ∷ []) 1 (tag_of (codes "a.b"))
    ≡ codes
        "#include <stddef.h>\nconst unsigned char c_a_b[] =\n{\n  0xAB , \n};\n\nconst size_t c_a_b_size = 1;\n"
unfolding process tag_of process_loop byte_text hex_digit size_text decimal digits_from ucsize_text
process_run = refl
