-- ===== src/Pollset.antt =====
-- The sets of descriptors of src/pollset.c, as they are built on poll() and on epoll.
pub mod Events
pub mod Poll
pub mod Epoll
pub mod Select
pub mod Kqueue
mod Tests
