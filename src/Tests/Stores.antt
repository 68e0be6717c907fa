-- ===== src/Tests/Stores.antt =====
-- The memory store and the order service on a concrete request.
use test_task_autumn.Prelude.{
  String, ◌≡◌, refl, ap, ◌≢◌, ◌⊎◌, true, false, none, some, List, [], ◌∷◌, ◌++◌, if◌then◌else◌,
  ◌==◌, nat_eq, string_eq, ok, err,
}
use test_task_autumn.Events.Envelope.{Time, Envelope, new_envelope}
use test_task_autumn.Order.Status.{pending, accepted}
use test_task_autumn.Order.Errors.{inbox_conflict}
use test_task_autumn.Order.Status.{can_transition}
use test_task_autumn.Order.Domain.{
  Order, transition_to, new_order, build_items, is_bad_item, line_total,
}
use test_task_autumn.Prelude.Words.{mul64, int64}
use test_task_autumn.Prelude.Texts.{insert_string, sort_strings, join, decimal32}
use test_task_autumn.Order.Service.Fingerprint.{fingerprint_create_order_request}
use test_task_autumn.Order.Service as Service
use test_task_autumn.Order.Service.Ports.{
  CreateOrderInput, CreateOrderRecord, ApplyPartnerEventRecord, Catalog,
}
use test_task_autumn.Order.Memory as Memory
use test_task_autumn.Order.Memory.{Store, new_store, record_key, with_order}
use test_task_autumn.Order.Memory.Laws.{
  IsValid, with_order-IsValid, new_store-IsValid, apply_partner_event-IsValid,
}
use test_task_autumn.Order.Memory.Effects.{Effect, apply_partner_event-Effect}
use test_task_autumn.Order.Memory.Replay.{here, next, receives, Evolves, create_order_replayed}
use test_task_autumn.Order.Memory.Once.{apply_partner_event_once, create_order_outbox, added}
use test_task_autumn.Order.Flow.{over_memory, create_order-IsValid, create_order_again}
use test_task_autumn.Order.Flow.Writes.{Writes, create_order-Writes}

abbrev noon : Time
noon = record { instant = 43200; location = 0 }

abbrev made : Order
made = record {
  id = "ord-1";
  user_id = "usr-1";
  restaurant_id = "rst-1";
  status = pending;
  items =
      record {
        menu_item_id = "tea";
        name = "Tea";
        unit_price_cents = 250;
        quantity = 2;
        modifier_item_ids = [];
        line_total_cents = 500;
      }
      ∷ [];
  total_cents = 500;
  version = 1;
}

abbrev event : Envelope
event = record {
  event_id = "evt-1";
  event_type = "order.created.v1";
  event_version = 1;
  occurred_at = noon;
  producer = "order-service";
  aggregate_type = "order";
  aggregate_id = "ord-1";
  partition_key = "ord-1";
  correlation_id = "req-1";
  causation_id = "key-1";
  payload = "{}";
}

abbrev filing : CreateOrderRecord
filing = record {
  order = made;
  idempotency_key = "key-1";
  request_fingerprint = "print-1";
  outbox_event = event;
}

abbrev acceptance : ApplyPartnerEventRecord
acceptance = record {
  event_id = "evt-2";
  event_type = "partner.order_accepted.v1";
  order_id = "ord-1";
  new_status = accepted;
  payload_fingerprint = "print-2";
}

abbrev filed : Store
filed = with_order new_store filing

filed_of_create :
    Memory.create_order filing new_store
    ≡ (ok (record { order = made; reused_idempotency_key = false }), filed)
unfolding Memory.create_order Memory.find_by_key
filed_of_create = refl

abbrev taken : Order
taken = record made { status = accepted; version = 2 }

acceptance_test :
    (Memory.apply_partner_event acceptance filed).0
    ≡ ok (record { order = taken; duplicate = false; changed = true })
unfolding Memory.apply_partner_event transition_to can_transition
acceptance_test = refl

filed-IsValid : IsValid filed
filed-IsValid = with_order-IsValid filing new_store refl new_store-IsValid

create_order_replayed_example :
    (o : Order) × Evolves made o
    × (Memory.create_order filing
          (Memory.apply_partner_event acceptance (Memory.create_order filing new_store).1).1
        ≡ (
          ok (record { order = o; reused_idempotency_key = true }),
          (Memory.apply_partner_event acceptance (Memory.create_order filing new_store).1).1,
        ))
create_order_replayed_example =
    create_order_replayed filing filing new_store
      (Memory.apply_partner_event acceptance (Memory.create_order filing new_store).1).1
      (record { order = made; reused_idempotency_key = false }) new_store-IsValid refl
      (ap (λ p. p.0) filed_of_create) (next here (receives acceptance)) refl refl

apply_partner_event-Effect_example :
    Effect acceptance filed (Memory.apply_partner_event acceptance filed)
apply_partner_event-Effect_example = apply_partner_event-Effect acceptance filed filed-IsValid

apply_partner_event-IsValid_example : IsValid (Memory.apply_partner_event acceptance filed).1
apply_partner_event-IsValid_example = apply_partner_event-IsValid acceptance filed filed-IsValid

apply_partner_event_once_example :
    (o : Order) × Evolves taken o
    × (Memory.apply_partner_event acceptance (Memory.apply_partner_event acceptance filed).1 ≡ (
      (if acceptance.payload_fingerprint == acceptance.payload_fingerprint
          then ok (record { order = o; duplicate = true; changed = false })
          else err inbox_conflict),
      (Memory.apply_partner_event acceptance filed).1,
    ))
apply_partner_event_once_example =
    apply_partner_event_once acceptance acceptance filed
      (Memory.apply_partner_event acceptance filed).1
      (record { order = taken; duplicate = false; changed = true }) filed-IsValid acceptance_test
      here refl

create_order_outbox_example :
    (((Memory.create_order filing new_store).0
        ≡ ok (record { order = made; reused_idempotency_key = false }))
      × ((Memory.create_order filing new_store).1.outbox ≡ [] ++ event ∷ [])
      × ((Memory.create_order filing new_store).1.orders "ord-1" ≡ some made)
      × (new_store.idempotency (record_key filing) ≡ none))
    ⊎ (((Memory.create_order filing new_store).1 ≡ new_store)
        × (added (Memory.create_order filing new_store).0 filing ≡ [])
        × (new_store.idempotency (record_key filing) ≢ none))
create_order_outbox_example = create_order_outbox filing new_store

abbrev world : Service.World
world = record {
  order_id = "ord-1";
  event_id = "evt-1";
  now = noon;
  clock = noon;
  marshal = λ p. some "{}";
  sha256_hex = λ s. s;
}

-- A catalog that has tea at 250 cents.
abbrev tea_shop : Catalog
tea_shop = record {
  validate_order_items = λ restaurant items. ok (
      record {
        menu_item_id = "tea";
        name = "Tea";
        unit_price_cents = 250;
        quantity = 2;
        modifier_item_ids = [];
      }
      ∷ []);
}

abbrev request : CreateOrderInput
request = record {
  request_id = "req-1";
  user_id = "usr-1";
  idempotency_key = "key-1";
  restaurant_id = "rst-1";
  items = record { menu_item_id = "tea"; quantity = 2; modifier_item_ids = [] } ∷ [];
}

request_test :
    (Service.create_order world (over_memory (some tea_shop)) request new_store).0
    ≡ ok (record { order = made; reused_idempotency_key = false })
unfolding Service.create_order Service.create_with Service.create_new Service.make_record
    Service.validate_create_order_input fingerprint_create_order_request Memory.create_order
    Memory.find_order_by_idempotency_key new_order build_items is_bad_item line_total mul64 int64
    new_envelope insert_string sort_strings join decimal32
request_test = refl

create_order-Writes_example :
    Writes world
      (some tea_shop)
      request
      new_store
      (Service.create_order world (over_memory (some tea_shop)) request new_store)
create_order-Writes_example =
    create_order-Writes world (some tea_shop) request new_store new_store-IsValid

create_order-IsValid_example :
    IsValid (Service.create_order world (over_memory (some tea_shop)) request new_store).1
create_order-IsValid_example =
    create_order-IsValid world (some tea_shop) request new_store new_store-IsValid refl

create_order_again_example :
    (o : Order) × Evolves made o
    × (Service.create_order world
          (over_memory none)
          request
          (Service.create_order world (over_memory (some tea_shop)) request new_store).1
        ≡ (
          ok (record { order = o; reused_idempotency_key = true }),
          (Service.create_order world (over_memory (some tea_shop)) request new_store).1,
        ))
create_order_again_example =
    create_order_again world world (some tea_shop) none request new_store
      (Service.create_order world (over_memory (some tea_shop)) request new_store).1
      (record { order = made; reused_idempotency_key = false }) new_store-IsValid refl refl
      request_test here

abbrev with_modifiers : List String → CreateOrderInput
with_modifiers ids = record request {
  items = record { menu_item_id = "tea"; quantity = 2; modifier_item_ids = ids } ∷ [];
}

-- Whatever the digest, one modifier "lemon,sugar" and the two "lemon" and "sugar" look the same.
modifiers_test :
    (sha256_hex : String → String)
    → fingerprint_create_order_request sha256_hex (with_modifiers ("lemon,sugar" ∷ []))
      ≡ fingerprint_create_order_request sha256_hex (with_modifiers ("lemon" ∷ "sugar" ∷ []))
unfolding fingerprint_create_order_request sort_strings insert_string join decimal32
modifiers_test sha256_hex = refl
