-- ===== src/Service.antt =====
-- deepwiki/internal/service: the executors of the three kinds of task, and the services behind the API.
pub mod Site
pub mod Ingesting
pub mod Refreshing
pub mod Wiki
pub mod Desk
pub mod Submitting
pub mod Catalog
pub mod Asking
