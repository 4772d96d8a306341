-- ===== src/Adapters.antt =====
-- internal/adapters: the capture adapters.
pub mod Sink
pub mod Redis
pub mod Postgres
pub mod Mailpit
