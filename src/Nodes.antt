-- ===== src/Nodes.antt =====
-- The files and folders of the corpora: packages/kb-db/src/repositories/node-repository.ts over
-- the table `knowledge_nodes` of packages/kb-db/src/schema/knowledge.ts. Rows has the table and
-- the statements on it, Repository the methods of `NodeRepository`.
mod Tests
pub mod Rows
pub mod Places
pub mod Repository
pub mod Prefix
pub mod Moves
pub mod Loop
pub mod Upsert
pub mod Synced
mod Others
pub mod Isolation
pub mod Sourced
pub mod Chain
