-- ===== src/Catalog.antt =====
-- The catalog service: internal/catalog.
pub mod Domain
pub mod Memory
pub mod Postgres
