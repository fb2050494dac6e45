-- ===== src/TestControllers.antt =====
-- Tests/TestControllers: the controllers that the repository's own programs run with.
pub mod Memory
pub mod Io
pub mod Cpm
pub mod Board
