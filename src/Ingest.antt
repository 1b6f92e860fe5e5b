-- ===== src/Ingest.antt =====
-- internal/ingest: an uploaded document is split into sections, and these into chunks.
pub mod Sections
pub mod Chunk
pub mod Handler
