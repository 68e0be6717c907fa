-- ===== src/Tests/Wires.antt =====
-- An event from one service to the other, with a codec for one sample of each payload.
use test_task_autumn.Prelude.{
  String, ◌<>◌, ◌≡◌, refl, Bool, true, false, ◌&&◌, Option, none, some, List, [], ◌∷◌, arith,
  eq_iff, if◌then◌else◌, ◌==◌, nat_eq, string_eq, ok,
}
use test_task_autumn.Prelude.Words.{mul64, int64}
use test_task_autumn.Events.Envelope.{Time, Envelope, new_envelope}
use test_task_autumn.Events.Contracts.{OrderCreated, OrderCreatedItem, OrderStatusChanged}
use test_task_autumn.Order.Status.{accepted}
use test_task_autumn.Order.Domain.{
  new_order, build_items, is_bad_item, line_total, NewOrderItemInput,
}
use test_task_autumn.Order.Service as Service
use test_task_autumn.Order.Service.{make_record, order_created}
use test_task_autumn.Order.Service.Ports.{CreateOrderInput, CreateOrderRecord}
use test_task_autumn.Order.KafkaHandler as OrderHandler
use test_task_autumn.Order.KafkaHandler.{partner_event_input}
use test_task_autumn.Order.KafkaHandler.Arrivals.{IsDecodedBy, partner_event_input-arrived}
use test_task_autumn.Partner.CallbackService as Callback
use test_task_autumn.Partner.CallbackService.{
  ReceiveStatusCallbackInput, ReceiveRecord, validate_and_event_type, callback_record,
}
use test_task_autumn.Partner.Intake as Intake
use test_task_autumn.Partner.Intake.{validate_payload, is_bad_input}
use test_task_autumn.Partner.KafkaHandler.{order_created_input}
use test_task_autumn.Partner.KafkaHandler.Arrivals.{handed_on, order_created_input-arrived}
use test_task_autumn.Partner.Outbox.{partner_outbox_row}
use test_task_autumn.Platform.Outbox.{OutboxConfig}
use test_task_autumn.Platform.Publisher.Rows.{arrived}

abbrev noon : Time
noon = record { instant = 43200; location = 0 }

abbrev config : OutboxConfig
config = record {
  relay_id = "relay-1";
  topic = "events.v1";
  lock_ttl = 30000000000;
  retry_delay = 5000000000;
}

abbrev format : Time → String
format t = "2026-09-07T12:00:00Z"

abbrev status : OrderStatusChanged
status = record {
  callback_id = "cb-1";
  order_id = "ord-1";
  restaurant_id = "rst-1";
  external_store_id = "ext-1";
  status = "accepted";
  partner_occurred_at = noon;
}

abbrev is_status : OrderStatusChanged → Bool
is_status p =
    p.callback_id == "cb-1"
    && p.order_id == "ord-1"
    && p.restaurant_id == "rst-1"
    && p.external_store_id == "ext-1"
    && p.status == "accepted"
    && p.partner_occurred_at.instant == 43200
    && p.partner_occurred_at.location == 0

-- the text with a space after it
abbrev jsonb : String → String
jsonb text = text <> " "

abbrev marshal_status : OrderStatusChanged → Option String
marshal_status p = if is_status p then some "status" else none

abbrev callback_world : Callback.World
callback_world = record {
  event_id = "evt-2";
  now = noon;
  clock = noon;
  marshal = marshal_status;
  sha256_hex = λ text. text;
}

abbrev handler_world : OrderHandler.World
handler_world = record {
  unmarshal = λ text. if text == "status " then some status else none;
  marshal = marshal_status;
  sha256_hex = λ text. text;
}

codec : IsDecodedBy jsonb callback_world handler_world status
codec = record {
  back = λ text h. let t : "status" ≡ text = cc h in rw (← t) refl;
  no_text = refl;
  same_marshal = refl;
  same_digest = λ text. refl;
}

abbrev callback : ReceiveStatusCallbackInput
callback = record {
  request_id = "req-2";
  bearer_token = "secret";
  callback_id = "cb-1";
  order_id = "ord-1";
  restaurant_id = "rst-1";
  external_store_id = "ext-1";
  status = "accepted";
  partner_occurred_at = record { instant = 43200; location = 3 };
}

abbrev event : Envelope
event = record {
  event_id = "evt-2";
  event_type = "partner.order_accepted.v1";
  event_version = 1;
  occurred_at = noon;
  producer = "partner-service";
  aggregate_type = "order";
  aggregate_id = "ord-1";
  partition_key = "ord-1";
  correlation_id = "req-2";
  causation_id = "cb-1";
  payload = "status";
}

abbrev filed : ReceiveRecord
filed = record {
  callback_id = "cb-1";
  token_digest = "secret";
  payload_fingerprint = "status";
  payload = status;
  outbox_event = event;
}

filed_test : callback_record callback_world callback "partner.order_accepted.v1" ≡ ok filed
unfolding callback_record new_envelope
filed_test = refl

validated_test : validate_and_event_type callback ≡ ok "partner.order_accepted.v1"
unfolding validate_and_event_type
validated_test = refl

partner_event_input-arrived_example :
    partner_event_input handler_world (arrived jsonb format config 0 4 (partner_outbox_row event))
    ≡ ok (record {
      event_id = "evt-2";
      event_type = "partner.order_accepted.v1";
      order_id = "ord-1";
      new_status = accepted;
      payload_fingerprint = "status";
    })
partner_event_input-arrived_example =
    partner_event_input-arrived jsonb format config 0 4 callback_world handler_world callback
      "partner.order_accepted.v1" filed (partner_outbox_row event) codec validated_test filed_test
      refl

abbrev is_bare : Option (List String) → Bool
is_bare none = false
is_bare (some []) = true
is_bare (some (id ∷ ids)) = false

abbrev is_tea : List OrderCreatedItem → Bool
is_tea [] = false
is_tea (i ∷ []) =
    i.menu_item_id == "tea"
    && i.name == "Tea"
    && i.unit_price_cents == 250
    && i.quantity == 2
    && is_bare i.modifier_item_ids
    && i.line_total_cents == 500
is_tea (i ∷ j ∷ rest) = false

abbrev tea : OrderCreatedItem
tea = record {
  menu_item_id = "tea";
  name = "Tea";
  unit_price_cents = 250;
  quantity = 2;
  modifier_item_ids = some [];
  line_total_cents = 500;
}

is_bare_lem : (o : Option (List String)) → is_bare o ≡ true → o ≡ some []
is_bare_lem none h = cc
is_bare_lem (some []) h = refl
is_bare_lem (some (id ∷ ids)) h = cc

is_tea_lem : (items : List OrderCreatedItem) → is_tea items ≡ true → items ≡ tea ∷ []
is_tea_lem [] h = cc
is_tea_lem (i ∷ []) h =
    ground
      (arith, eq_iff i.menu_item_id "tea", eq_iff i.name "Tea", is_bare_lem i.modifier_item_ids)
is_tea_lem (i ∷ j ∷ rest) h = cc

abbrev order : OrderCreated
order = record {
  order_id = "ord-1";
  user_id = "usr-1";
  restaurant_id = "rst-1";
  status = "pending_restaurant_confirmation";
  total_cents = 500;
  items = tea ∷ [];
}

abbrev is_order : OrderCreated → Bool
is_order o =
    o.order_id == "ord-1"
    && o.user_id == "usr-1"
    && o.restaurant_id == "rst-1"
    && o.status == "pending_restaurant_confirmation"
    && o.total_cents == 500
    && is_tea o.items

abbrev marshal_order : OrderCreated → Option String
marshal_order o = if is_order o then some "order" else none

abbrev unmarshal_order : String → Option OrderCreated
unmarshal_order text = if text == "order " then some order else none

abbrev order_world : Service.World
order_world = record {
  order_id = "ord-1";
  event_id = "evt-1";
  now = noon;
  clock = noon;
  marshal = marshal_order;
  sha256_hex = λ text. text;
}

abbrev intake_world : Intake.World
intake_world = record {
  submission_id = "sub-1";
  unmarshal = unmarshal_order;
  marshal = marshal_order;
  sha256_hex = λ text. text;
}

abbrev request : CreateOrderInput
request = record {
  request_id = "req-1";
  user_id = "usr-1";
  idempotency_key = "key-1";
  restaurant_id = "rst-1";
  items = record { menu_item_id = "tea"; quantity = 2; modifier_item_ids = [] } ∷ [];
}

abbrev priced : List NewOrderItemInput
priced =
    record {
      menu_item_id = "tea";
      name = "Tea";
      unit_price_cents = 250;
      quantity = 2;
      modifier_item_ids = [];
    }
    ∷ []

abbrev order_event : Envelope
order_event = record {
  event_id = "evt-1";
  event_type = "order.created.v1";
  event_version = 1;
  occurred_at = noon;
  producer = "order-service";
  aggregate_type = "order";
  aggregate_id = "ord-1";
  partition_key = "ord-1";
  correlation_id = "req-1";
  causation_id = "key-1";
  payload = "order";
}

abbrev made : CreateOrderRecord
made = record {
  order = record {
    id = "ord-1";
    user_id = "usr-1";
    restaurant_id = "rst-1";
    status = "pending_restaurant_confirmation";
    items =
        record {
          menu_item_id = "tea";
          name = "Tea";
          unit_price_cents = 250;
          quantity = 2;
          modifier_item_ids = [];
          line_total_cents = 500;
        }
        ∷ [];
    total_cents = 500;
    version = 1;
  };
  idempotency_key = "key-1";
  request_fingerprint = "print-1";
  outbox_event = order_event;
}

made_test : make_record order_world request "print-1" priced ≡ ok made
unfolding make_record new_order build_items is_bad_item line_total mul64 int64 new_envelope
made_test = refl

order_back :
    (text : String)
    → marshal_order (order_created made.order) ≡ some text
    → unmarshal_order (jsonb text) ≡ some (order_created made.order)
order_back text h = let t : "order" ≡ text = cc h in rw (← t) refl

order_created_input-arrived_example :
    (text : String) × (order_created_input
        (arrived jsonb format config 0 4 (partner_outbox_row order_event))
      ≡ ok (handed_on request made text))
    × (is_bad_input (handed_on request made text) ≡ false)
    × (unmarshal_order text ≡ some (order_created made.order))
    × (validate_payload (order_created made.order) "ord-1" ≡ ok tt)
order_created_input-arrived_example =
    order_created_input-arrived jsonb format config 0 4 order_world intake_world request "print-1"
      priced made (partner_outbox_row order_event) order_back refl made_test refl refl
