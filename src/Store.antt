-- ===== src/Store.antt =====
-- deepwiki/internal/task/store.go: the `tasks` table and its operations.
pub mod Table
pub mod Ops
pub mod Moves
pub mod Keys
pub mod Claim
pub mod Invariant
pub mod Listing
pub mod Landing
pub mod Chunks
pub mod Repos
pub mod Wikis
