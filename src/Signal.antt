-- ===== src/Signal.antt =====
-- The module of src/signal.c: the POSIX version for Linux, and the ANSI version.
mod Tests
pub mod Names
pub mod Sets
pub mod Info
pub mod Handlers
pub mod Ansi
pub mod Masks
