-- ===== src/Sync.antt =====
-- Synchronisation of a corpus with a mounted directory or a git remote: its settings,
-- and which nodes may be edited.
pub mod Settings
pub mod Mutability
