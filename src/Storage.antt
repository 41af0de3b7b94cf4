-- ===== src/Storage.antt =====
-- The storage files (src/storage) and what they ask of the system.
pub mod System
pub mod PosixFile
pub mod Samples
mod Tests
