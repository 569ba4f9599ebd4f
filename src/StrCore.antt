-- ===== src/StrCore.antt =====
-- src/strcore.c: string functions.
pub mod ByteMasks
pub mod SafeText
pub mod Glyphs
pub mod Wrap
pub mod Metaphone
mod Tests
