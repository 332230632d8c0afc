-- ===== src/Lib.antt =====
-- A verification library for EvuKB, a knowledge base and retrieval system. It models the parts
-- that decide what is safe and allowed, most of them in packages/kb-core, as functions on values,
-- and proves what their callers rely on. Thrown errors are values of a result type.
--
-- Storage      packages/kb-core/src/storage/path-safety.ts (normalizeRelativePath), with Node's
--              path.posix.normalize in Storage/Posix.antt. Storage/PathSafety/Walk.antt describes
--              what is accepted as a walk that never leaves its start.
-- AgentWrite   packages/kb-core/src/agent-write: PathPolicy (path-policy.ts), Request (types.ts) and
--              ApprovalPolicy (approval-policy.ts). Approvals is
--              packages/kb-server/src/services/mutation-approval-service.ts over the table of
--              packages/kb-db/src/repositories/mutation-approval-repository.ts, and `execute` of
--              agent-write-service.ts beside it, of a service that has approvals.
-- Archive      packages/kb-core/src/archive: Limits and Zip (both limits.ts), Paths (paths.ts and
--              packages/kb-core/src/portable/paths.ts), which use Storage for the final path.
-- Sync         packages/kb-core/src/sync: Settings and its child Validate (settings.ts), and
--              Mutability (mutability.ts).
-- Search       packages/kb-core/src/search: Registry (ranking-registry.ts), Ranking
--              (effective-ranking.ts and packages/kb-core/src/settings/ranking.ts) and Filters
--              with its child Validate (filters.ts).
-- Nodes        packages/kb-db/src/repositories/node-repository.ts over the table knowledge_nodes of
--              packages/kb-db/src/schema/knowledge.ts: Rows (the table and its statements),
--              Repository, Upsert and Synced (the methods), Places (paths of folders). Synced has
--              ensureFolderChain and resolveParentId of
--              packages/kb-server/src/services/import-shared.ts as well.
-- FileManager  packages/kb-server/src/services/file-manager: World (the state and the hooks), Guards
--              (helpers.ts and the checks of crud.ts), Crud and Changes (the operations of crud.ts,
--              and applyMarkdownMetadata of okf.ts and recordAudit of writeback-hooks.ts). It works
--              on Nodes, and asks Sync/Mutability what may be edited.
-- Markdown     packages/kb-core/src/markdown/chunker.ts: Chunker and Document.
-- Links        packages/kb-core/src/links/resolve.ts, on nodes.
-- Common       texts, values of JSON, lists, results and Boolean tests.
--
-- A function keeps its name in snake case: `normalizeRelativePath` is `normalize_relative_path`.
-- A text is a list of UTF-16 code units. Settings and bodies are JSON values with `undefined`; a
-- number is not a number, an infinity or a dyadic rational, as doubles are. The sums that the
-- archive limits form stay below 2 ^ 53, so they are natural numbers. A read outside a byte buffer
-- throws a RangeError, which is `none` in Archive/Zip.antt.
--
-- State is passed explicitly. Approvals works on a `World` of rows, audit entries and documents;
-- what the service calls and does not define (settings, nodes, ids and the write itself) is the
-- parameter `Services`, any functions at all. Several calls are lists of calls, and two concurrent
-- approvals are an explicit order of their reads and writes. The ranking registry is the map that
-- its methods change; its ranking functions are values of any type, since it never calls them.
-- A repository method is a function of the table that returns or throws and leaves a table. A
-- statement that the primary key or the unique index on files forbids throws and changes nothing; a
-- method of several statements is no transaction, so what it did before it throws stays. The id that
-- the database generates is the parameter `next_id`. The file manager works on a `World` of nodes,
-- blobs and audit entries, and what it calls and does not define is the parameter `Services`, any
-- functions at all; its hooks may change that world, and where a theorem needs that they leave the
-- nodes alone, as writebacks and notifications do and the maintenance of OKF index files does not,
-- it says so. Writing a blob does not throw.
--
-- All loops are recursion on their lists or on a counter that the code computes, but for
-- capSplitText, which cuts a text into shorter texts until they are small: it runs on fuel, and one
-- unit more than the length of the text is enough. The regular expressions of the chunker are
-- parameters: what they make of a text.
--
-- Not modelled: HTTP routes, queries other than those of the two repositories, storage adapters,
-- jobs, the SDK, the user interface and deployment, which are I/O or generated; of the file manager
-- the listing as a tree; and, of the core, the matching of nodes against filters, the extraction of
-- links, front matter, the manifest and the OKF parts.
pub mod AgentWrite
pub mod Archive
pub mod Common
pub mod FileManager
pub mod Links
pub mod Markdown
pub mod Nodes
pub mod Search
pub mod Storage
pub mod Sync
