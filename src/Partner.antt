-- ===== src/Partner.antt =====
-- The partner service: internal/partner.
pub mod Errors
pub mod Tables
pub mod Intake
pub mod Store
pub mod CallbackService
pub mod Callbacks
pub mod Dispatch
pub mod Submissions
pub mod RestaurantClient
pub mod KafkaHandler
pub mod Outbox
