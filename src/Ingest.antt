-- ===== src/Ingest.antt =====
-- Repository ingestion (deepwiki/internal/ingest).
pub mod Windows
pub mod Lines
pub mod Chunker
pub mod Pipeline
pub mod Stages
