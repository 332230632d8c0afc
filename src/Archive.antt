-- ===== src/Archive.antt =====
-- Import of zip archives: packages/kb-core/src/archive and the entry paths of
-- packages/kb-core/src/portable. The contents of a zip file come from a library, as a list of
-- named byte sequences.
pub mod Limits
pub mod Zip
pub mod Paths
