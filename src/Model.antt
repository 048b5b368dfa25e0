-- ===== src/Model.antt =====
-- The domain model (deepwiki/internal/model).
pub mod Task
pub mod Errors
pub mod Chunk
pub mod Repo
