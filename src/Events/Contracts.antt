-- ===== src/Events/Contracts.antt =====
-- internal/contracts: the payloads that the services exchange.
use test_task_autumn.Prelude.{ℕ, String, Option, List, nat_eq, string_eq}
use test_task_autumn.Events.Envelope.{Time}

-- orderevents/order_created.go
abbrev pub order_created_type : String
order_created_type = "order.created.v1"

abbrev pub pending_status : String
pending_status = "pending_restaurant_confirmation"

-- The nil slice of modifiers is `none`.
pub record OrderCreatedItem : Type 0 where
  pub menu_item_id : String
  pub name : String
  pub unit_price_cents : ℕ
  pub quantity : ℕ
  pub modifier_item_ids : Option (List String)
  pub line_total_cents : ℕ

pub record OrderCreated : Type 0 where
  pub order_id : String
  pub user_id : String
  pub restaurant_id : String
  pub status : String
  pub total_cents : ℕ
  pub items : List OrderCreatedItem

-- partnerevents/order_status_changed.go
abbrev pub order_accepted_type : String
order_accepted_type = "partner.order_accepted.v1"

abbrev pub order_rejected_type : String
order_rejected_type = "partner.order_rejected.v1"

abbrev pub accepted_status : String
accepted_status = "accepted"

abbrev pub rejected_status : String
rejected_status = "rejected"

pub record OrderStatusChanged : Type 0 where
  pub callback_id : String
  pub order_id : String
  pub restaurant_id : String
  pub external_store_id : String
  pub status : String
  pub partner_occurred_at : Time

-- partnercallbacks/order_status.go
pub record OrderStatus : Type 0 where
  pub callback_id : String
  pub order_id : String
  pub restaurant_id : String
  pub external_store_id : String
  pub status : String
  pub occurred_at : Time
