-- ===== src/Partner/Intake.antt =====
-- internal/partner/application/service.go. The decoder and encoder of the payload, the digest, the
-- result of `newID` and the store are arguments; a nil store is `none`.
pub mod Contract
use test_task_autumn.Prelude.{
  ℕ, zero, suc, ◌+◌, ◌-◌, ◌*◌, ◌/◌, ◌%◌, ◌^◌, ◌≤◌, ◌<◌, String, ◌<>◌, ◌≡◌, refl, sym, ap, ◌∙◌, ◌≢◌,
  ◌↔◌, ◌⊎◌, inl, inr, Bool, true, false, not, ◌&&◌, ◌||◌, Option, none, some, List, [], ◌∷◌, ◌++◌,
  map, arith, eq_iff, eq_refl, ltb, leb, if◌then◌else◌, Eq, ◌==◌, ◌!=◌, nat_eq, string_eq,
  Bool-cases, Option-cases, Map, empty_map, insert, length, is_empty, take, keep_if, All,
  length-append, is_empty-append_cons, length-take-le, contains, Result, ok, err, ◌>>=◌, >>=-eq-ok,
  Result-cases, ◌>>◌, fail_if,
}
use test_task_autumn.Prelude.Words.{add64, mul64, int64, is_positive32, is_positive64}
use test_task_autumn.Events.Contracts.{
  OrderCreated, OrderCreatedItem, order_created_type, pending_status,
}
use test_task_autumn.Partner.Errors.{Error, invalid_order_created, encoding}

pub record HandleOrderCreatedInput : Type 0 where
  pub event_id : String
  pub event_type : String
  pub event_version : ℕ
  pub partition_key : String
  pub correlation_id : String
  pub payload : String

pub record ReceiveOrderRecord : Type 0 where
  pub submission_id : String
  pub event_id : String
  pub event_type : String
  pub event_version : ℕ
  pub correlation_id : String
  pub order_id : String
  pub restaurant_id : String
  pub payload_fingerprint : String
  pub payload : OrderCreated

pub record ReceiveOrderResult : Type 0 where
  pub submission_id : String
  pub duplicate : Bool

pub record World : Type 0 where
  pub submission_id : String
  pub unmarshal : String → Option OrderCreated
  pub marshal : OrderCreated → Option String
  pub sha256_hex : String → String

-- the guard of the loop of `validatePayload`
unfoldable pub is_bad_item : OrderCreatedItem → Bool
is_bad_item item =
    item.menu_item_id == ""
    || item.name == ""
    || not (is_positive64 item.unit_price_cents)
    || not (is_positive32 item.quantity)
    || item.line_total_cents != mul64 item.unit_price_cents (int64 item.quantity)

-- the loop from running total `total`
unfoldable pub sum_items : ℕ → List OrderCreatedItem → Result Error ℕ
sum_items total [] = ok total
sum_items total (item ∷ rest) =
    fail_if (is_bad_item item) invalid_order_created
    >> sum_items (add64 total item.line_total_cents) rest

unfoldable pub validate_payload : OrderCreated → String → Result Error (Unit {0})
validate_payload p partition_key = do
  fail_if
      (p.order_id == ""
        || p.order_id != partition_key
        || p.user_id == ""
        || p.restaurant_id == ""
        || p.status != pending_status
        || not (is_positive64 p.total_cents)
        || is_empty p.items)
      invalid_order_created
  total ← sum_items 0 p.items
  fail_if (total != p.total_cents) invalid_order_created

abbrev pub normalize_item : OrderCreatedItem → OrderCreatedItem
normalize_item item = record item {
  modifier_item_ids = elim item.modifier_item_ids [ none ↦ some [] | some ids ↦ some ids ];
}

unfoldable pub normalize_payload : OrderCreated → OrderCreated
normalize_payload p = record p { items = map normalize_item p.items }

abbrev pub or_fail : {A : Type 0} → Option A → Error → Result Error A
or_fail none e = err e
or_fail (some a) e = ok a

-- `HandleOrderCreated` up to the record that it hands to the store
unfoldable pub order_record : World → HandleOrderCreatedInput → Result Error ReceiveOrderRecord
order_record w input = do
  payload ← or_fail (w.unmarshal input.payload) invalid_order_created
  _ ← validate_payload payload input.partition_key
  let normal = normalize_payload payload
  canonical ← or_fail (w.marshal normal) encoding
  fail_if (w.submission_id == "") invalid_order_created
  ok (record {
    submission_id = w.submission_id;
    event_id = input.event_id;
    event_type = input.event_type;
    event_version = input.event_version;
    correlation_id = input.correlation_id;
    order_id = normal.order_id;
    restaurant_id = normal.restaurant_id;
    payload_fingerprint = w.sha256_hex canonical;
    payload = normal;
  })

abbrev pub is_bad_input : HandleOrderCreatedInput → Bool
is_bad_input input =
    input.event_id == ""
    || input.event_type != order_created_type
    || input.event_version != 1
    || input.partition_key == ""
    || input.payload == ""

abbrev pub named_result : String → ReceiveOrderResult → ReceiveOrderResult
named_result id result =
    if result.submission_id == "" then record result { submission_id = id } else result

-- what the store answers, with a missing submission id filled in
abbrev pub handled :
    {S : Type 0}
    → String
    → Result Error ReceiveOrderResult × S
    → Result Error ReceiveOrderResult × S
handled id (err e, s) = (err e, s)
handled id (ok result, s) = (ok (named_result id result), s)

unfoldable pub handle_order_created :
    {S : Type 0}
    → World
    → Option (ReceiveOrderRecord → S → Result Error ReceiveOrderResult × S)
    → HandleOrderCreatedInput
    → S
    → Result Error ReceiveOrderResult × S
handle_order_created w store input s =
    if is_bad_input input then (err invalid_order_created, s) else elim store [
      | none ↦ (err invalid_order_created, s)
      | some receive_order ↦ elim (order_record w input) [
        | err e ↦ (err e, s)
        | ok r ↦ handled w.submission_id (receive_order r s)
      ]
    ]
