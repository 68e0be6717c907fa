-- ===== src/Platform.antt =====
-- The parts that the services share: internal/platform, and the outbox of internal/order/postgres.
pub mod Claims
pub mod Outbox
pub mod Relay
pub mod Consumer
pub mod Migrations
pub mod Publisher
