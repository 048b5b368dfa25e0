-- ===== src/Search.antt =====
-- deepwiki/internal/search.
pub mod Index
