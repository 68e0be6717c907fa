-- ===== src/Order/Service/Ports.antt =====
-- The inputs, records and ports of internal/order/application/service.go.
use test_task_autumn.Prelude.{ℕ, String, Bool, Option, List, nat_eq, string_eq, Result}
use test_task_autumn.Events.Envelope.{Envelope}
use test_task_autumn.Order.Status.{Status}
use test_task_autumn.Order.Errors.{Error}
use test_task_autumn.Order.Domain.{Order, NewOrderItemInput}

pub record RequestedItem : Type 0 where
  pub menu_item_id : String
  pub quantity : ℕ
  pub modifier_item_ids : List String

pub record CreateOrderInput : Type 0 where
  pub request_id : String
  pub user_id : String
  pub idempotency_key : String
  pub restaurant_id : String
  pub items : List RequestedItem

pub record CreateOrderRecord : Type 0 where
  pub order : Order
  pub idempotency_key : String
  pub request_fingerprint : String
  pub outbox_event : Envelope

pub record CreateOrderResult : Type 0 where
  pub order : Order
  pub reused_idempotency_key : Bool

-- `ApplyPartnerEventInput` has the same fields.
pub record ApplyPartnerEventRecord : Type 0 where
  pub event_id : String
  pub event_type : String
  pub order_id : String
  pub new_status : Status
  pub payload_fingerprint : String

pub record ApplyPartnerEventResult : Type 0 where
  pub order : Order
  pub duplicate : Bool
  pub changed : Bool

pub record Catalog : Type 0 where
  pub validate_order_items : String → List RequestedItem → Result Error (List NewOrderItemInput)

-- A lookup that found nothing is `ok none`.
pub record OrderStore (S : Type 0) : Type 0 where
  pub find_order : String → String → String → S → Result Error (Option CreateOrderResult)
  pub create_order : CreateOrderRecord → S → Result Error CreateOrderResult × S
  pub get_order : String → String → S → Result Error Order
  pub apply_partner_event : ApplyPartnerEventRecord → S → Result Error ApplyPartnerEventResult × S
