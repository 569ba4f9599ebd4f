-- ===== src/Crc/Tests.antt =====
-- Runs of the checksum, and the theorems about it at examples.
use lua_conmanorg.Crc.{m_crc32_table, complement32, crc_step, crc_loop, crc32}
use lua_conmanorg.Crc.Bitwise.{bitwise_crc32, crc32-bitwise}
use lua_conmanorg.Crc.Detection.{crc32_detects_one_byte}
use lua_conmanorg.Prelude.{
  codes, ℕ, ◌<◌, ◌≡◌, ◌≢◌, refl, List, ◌∷◌, ◌++◌, All, ltb, ltb→lt, check→All, arith,
}

abbrev digits : List ℕ
digits = codes "123456789"

-- The check value of this checksum.
crc32-digits : crc32 digits 0 ≡ 0xcbf43926
unfolding m_crc32_table complement32 crc_step crc_loop crc32
crc32-digits = refl

digits-bytes : All (λ p. p < 256) digits
digits-bytes = check→All (λ p. p < 256) (λ p. ltb p 256) (λ p e. ltb→lt p 256 e) digits refl

crc32-bitwise_example : crc32 digits 0 ≡ bitwise_crc32 digits
crc32-bitwise_example = crc32-bitwise digits digits-bytes

crc32_detects_one_byte_example :
    crc32 (digits ++ (65 ∷ digits)) 0 ≢ crc32 (digits ++ (66 ∷ digits)) 0
crc32_detects_one_byte_example =
    crc32_detects_one_byte digits digits 65 66 0 digits-bytes digits-bytes (omega arith)
      (omega arith) (omega arith)
