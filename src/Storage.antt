-- ===== src/Storage.antt =====
-- The storage layer of packages/kb-core/src/storage: relative paths and blob references.
pub mod Posix
pub mod PathSafety
