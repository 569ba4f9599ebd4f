-- ===== src/Process.antt =====
-- The parts of src/process.c that do not only call the system: limits, the environment of a new
-- program, the status of a child, and the set of processors.
pub mod Limits
pub mod Exec
pub mod Child
pub mod Affinity
mod Tests
