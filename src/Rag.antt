-- ===== src/Rag.antt =====
-- backend/src/rag: the retrieval index over an organization's documents.
pub mod Text
pub mod Chunking
pub mod Rows
pub mod Access
pub mod Documents
pub mod Ingestion
pub mod Worker
mod Tests
