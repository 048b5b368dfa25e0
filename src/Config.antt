-- ===== src/Config.antt =====
-- deepwiki/internal/config: the merge of JSON patches and the manager of the configuration.
pub mod Patch
pub mod Manager
