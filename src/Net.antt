-- ===== src/Net.antt =====
-- The parts of src/net.c that do not only call the system: addresses and the options of sockets.
pub mod Address
pub mod Options
mod Tests
