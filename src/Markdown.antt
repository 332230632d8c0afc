-- ===== src/Markdown.antt =====
-- Markdown documents: packages/kb-core/src/markdown/chunker.ts. Chunker cuts a text into pieces,
-- Document a document into sections and these into chunks.
mod Tests
pub mod Chunker
pub mod Document
