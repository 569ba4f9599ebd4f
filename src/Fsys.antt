-- ===== src/Fsys.antt =====
-- The parts of src/fsys.c that do not only call the system: modes, names of files, directories.
pub mod Modes
pub mod Paths
pub mod Directory
mod Tests
