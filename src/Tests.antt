-- ===== src/Tests.antt =====
-- Concrete inputs for the theorems, by component.
mod Data
mod Store
mod Queue
mod Manager
mod Ingest
mod Retriever
mod Config
mod RateLimit
mod Service
mod Requests
