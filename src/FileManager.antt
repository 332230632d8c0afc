-- ===== src/FileManager.antt =====
-- packages/kb-server/src/services/file-manager: crud.ts, helpers.ts, and okf.ts and
-- writeback-hooks.ts as far as crud.ts depends on what they do to nodes. World has the state and
-- what the service calls, Guards the checks before a change, Crud the operations.
mod Tests
pub mod World
pub mod Guards
pub mod Crud
pub mod Changes
pub mod Tree
pub mod Placing
pub mod Keeps
pub mod Creation
pub mod Descent
pub mod Closure
pub mod Removal
pub mod Upkeep
pub mod Calls
pub mod ReadOnly
