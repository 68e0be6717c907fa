-- ===== src/Order/Service.antt =====
-- internal/order/application/service.go. The ports are records of functions over the state `S` of
-- the store; a nil port is `none`. The two calls of `newID`, the calls of `now` and `time.Now` are
-- arguments, as are `json.Marshal` of the created event and the digest of a fingerprint.
pub mod Ports
pub mod Fingerprint
use test_task_autumn.Prelude.{
  ℕ, zero, suc, ◌+◌, ◌-◌, ◌*◌, ◌/◌, ◌%◌, ◌^◌, ◌≤◌, ◌<◌, String, ◌<>◌, ◌≡◌, refl, sym, ap, ◌∙◌, ◌≢◌,
  ◌↔◌, ◌⊎◌, inl, inr, Bool, true, false, not, ◌&&◌, ◌||◌, Option, none, some, List, [], ◌∷◌, ◌++◌,
  map, arith, eq_iff, eq_refl, ltb, leb, if◌then◌else◌, Eq, ◌==◌, ◌!=◌, nat_eq, string_eq,
  Bool-cases, Option-cases, Map, empty_map, insert, length, is_empty, take, keep_if, All,
  length-append, is_empty-append_cons, length-take-le, contains, Result, ok, err, ◌>>=◌, >>=-eq-ok,
  Result-cases, ◌>>◌, fail_if,
}
use test_task_autumn.Prelude.Words.{is_positive32}
use test_task_autumn.Events.Envelope.{Time, Envelope, new_envelope}
use test_task_autumn.Events.Contracts.{OrderCreated, OrderCreatedItem, order_created_type}
use test_task_autumn.Order.Errors.{
  Error, invalid_create_order, invalid_create_order_item, store_required, catalog_required,
  order_not_found, invalid_partner_event, encoding, invalid_envelope,
}
use test_task_autumn.Order.Domain.{Order, OrderItem, NewOrderItemInput, new_order}
use Ports.{
  RequestedItem, CreateOrderInput, CreateOrderResult, ApplyPartnerEventRecord,
  ApplyPartnerEventResult, Catalog, OrderStore,
}
use Fingerprint.{fingerprint_create_order_request}

-- What a call takes from outside: the results of `newID`, `now` and `time.Now`, and the encoders.
pub record World : Type 0 where
  pub order_id : String
  pub event_id : String
  pub now : Time
  pub clock : Time
  pub marshal : OrderCreated → Option String
  pub sha256_hex : String → String

pub record Service (S : Type 0) : Type 0 where
  pub catalog : Option Catalog
  pub store : Option (OrderStore S)

abbrev pub is_bad_request : RequestedItem → Bool
is_bad_request item = item.menu_item_id == "" || not (is_positive32 item.quantity)

unfoldable pub validate_items : ℕ → List RequestedItem → Result Error (Unit {0})
validate_items i [] = ok tt
validate_items i (item ∷ rest) =
    fail_if (is_bad_request item) (invalid_create_order_item i) >> validate_items (i + 1) rest

unfoldable pub validate_create_order_input : CreateOrderInput → Result Error (Unit {0})
unfolding validate_items
validate_create_order_input input = do
  fail_if
      (input.user_id == ""
        || input.idempotency_key == ""
        || input.restaurant_id == ""
        || is_empty input.items)
      invalid_create_order
  validate_items 0 input.items

abbrev pub order_created_item : OrderItem → OrderCreatedItem
order_created_item item = record {
  menu_item_id = item.menu_item_id;
  name = item.name;
  unit_price_cents = item.unit_price_cents;
  quantity = item.quantity;
  modifier_item_ids = some item.modifier_item_ids;
  line_total_cents = item.line_total_cents;
}

-- the payload that `CreateOrder` marshals
abbrev pub order_created : Order → OrderCreated
order_created o = record {
  order_id = o.id;
  user_id = o.user_id;
  restaurant_id = o.restaurant_id;
  status = o.status;
  total_cents = o.total_cents;
  items = map order_created_item o.items;
}

abbrev pub or_fail {ℓ} : {E A : Type ℓ} → Option A → E → Result E A
or_fail none e = err e
or_fail (some a) e = ok a

-- `CreateOrder` from the call of `NewOrder` up to the record that it hands to the store
unfoldable pub make_record :
    World
    → CreateOrderInput
    → String
    → List NewOrderItemInput
    → Result Error Ports.CreateOrderRecord
make_record w input fingerprint items = do
  order ← new_order (record {
    order_id = w.order_id;
    user_id = input.user_id;
    restaurant_id = input.restaurant_id;
    items = items;
  })
  payload ← or_fail (w.marshal (order_created order)) encoding
  event ←
      or_fail
        (new_envelope w.clock (record {
          event_id = w.event_id;
          event_type = order_created_type;
          event_version = 1;
          occurred_at = w.now;
          producer = "order-service";
          aggregate_type = "order";
          aggregate_id = order.id;
          partition_key = order.id;
          correlation_id = input.request_id;
          causation_id = input.idempotency_key;
          payload = payload;
        }))
        invalid_envelope
  ok (record {
    order = order;
    idempotency_key = input.idempotency_key;
    request_fingerprint = fingerprint;
    outbox_event = event;
  })

module _ {S : Type 0} where
  -- `CreateOrder` after a first lookup that found nothing
  unfoldable pub create_new :
      World
      → Option Catalog
      → OrderStore S
      → CreateOrderInput
      → String
      → S
      → Result Error CreateOrderResult × S
  create_new w none store input fingerprint s = (err catalog_required, s)
  create_new w (some c) store input fingerprint s =
      elim (c.validate_order_items input.restaurant_id input.items
        >>= make_record w input fingerprint) [ err e ↦ (err e, s) | ok r ↦ store.create_order r s ]

  unfoldable pub create_with :
      World
      → Option Catalog
      → OrderStore S
      → CreateOrderInput
      → S
      → Result Error CreateOrderResult × S
  unfolding create_new
  create_with w c store input s =
      let fingerprint = fingerprint_create_order_request w.sha256_hex input in
      elim (store.find_order input.user_id input.idempotency_key fingerprint s) [
        | err e ↦ (err e, s)
        | ok (some existing) ↦ (ok existing, s)
        | ok none ↦ create_new w c store input fingerprint s
      ]

  unfoldable pub create_order :
      World → Service S → CreateOrderInput → S → Result Error CreateOrderResult × S
  create_order w service input s = elim (validate_create_order_input input) [
    | err e ↦ (err e, s)
    | ok _ ↦ elim service.store [
      | none ↦ (err store_required, s)
      | some store ↦ create_with w service.catalog store input s
    ]
  ]

  unfoldable pub get_order : Service S → String → String → S → Result Error Order
  get_order service order_id user_id s =
      if order_id == "" || user_id == "" then err order_not_found else elim service.store [
        | none ↦ err store_required
        | some store ↦ store.get_order order_id user_id s
      ]

  unfoldable pub apply_partner_event :
      Service S → ApplyPartnerEventRecord → S → Result Error ApplyPartnerEventResult × S
  apply_partner_event service input s =
      if input.event_id == ""
        || input.event_type == ""
        || input.order_id == ""
        || input.new_status == ""
        || input.payload_fingerprint == ""
      then (err invalid_partner_event, s)
      else elim service.store [
        | none ↦ (err store_required, s)
        | some store ↦ store.apply_partner_event input s
      ]
