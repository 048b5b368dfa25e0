-- ===== src/Manager.antt =====
-- The task manager (deepwiki/internal/task: manager.go, pool.go, dlq.go).
pub mod State
pub mod Submit
pub mod Dispatch
pub mod Pool
