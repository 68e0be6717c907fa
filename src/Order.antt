-- ===== src/Order.antt =====
-- The order service: internal/order.
pub mod Status
pub mod Errors
pub mod Domain
pub mod Service
pub mod Memory
pub mod Flow
pub mod CatalogAdapter
pub mod Postgres
pub mod KafkaHandler
