-- ===== src/Queue.antt =====
-- The RabbitMQ task queue (deepwiki/internal/queue).
pub mod Rabbit
pub mod Routing
pub mod Publisher
pub mod Confirms
pub mod Consumer
pub mod Reconciler
pub mod Recovery
