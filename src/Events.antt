-- ===== src/Events.antt =====
-- internal/platform/events/envelope.go and the event contracts of internal/contracts.
pub mod Envelope
pub mod Contracts
