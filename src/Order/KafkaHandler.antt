-- ===== src/Order/KafkaHandler.antt =====
-- internal/order/kafkahandler/order_status_changed.go. The decoder and the encoder of the payload, the
-- digest and the service are arguments. An event version is an int64 bit pattern.
pub mod Arrivals
use test_task_autumn.Prelude.{
  ℕ, zero, suc, ◌+◌, ◌-◌, ◌*◌, ◌/◌, ◌%◌, ◌^◌, ◌≤◌, ◌<◌, String, ◌<>◌, ◌≡◌, refl, sym, ap, ◌∙◌, ◌≢◌,
  ◌↔◌, ◌⊎◌, inl, inr, Bool, true, false, not, ◌&&◌, ◌||◌, Option, none, some, List, [], ◌∷◌, ◌++◌,
  map, arith, eq_iff, eq_refl, ltb, leb, if◌then◌else◌, Eq, ◌==◌, ◌!=◌, nat_eq, string_eq,
  Bool-cases, Option-cases, Map, empty_map, insert, length, is_empty, take, keep_if, All,
  length-append, is_empty-append_cons, length-take-le, contains, Result, ok, err, ◌>>=◌, >>=-eq-ok,
  Result-cases, ◌>>◌, fail_if,
}
use test_task_autumn.Prelude.Numbers.{atoi}
use test_task_autumn.Events.Envelope.{is_zero, utc}
use test_task_autumn.Events.Contracts.{
  OrderStatusChanged, order_accepted_type, order_rejected_type, accepted_status, rejected_status,
}
use test_task_autumn.Order.Status.{Status, accepted, rejected}
use test_task_autumn.Order.Errors as Order
use test_task_autumn.Order.Service.Ports.{ApplyPartnerEventRecord, ApplyPartnerEventResult}
use test_task_autumn.Platform.Consumer.{Message}

pub data HandlerError : Type 0 where
  invalid_partner_status_message : HandlerError
  encoding : HandlerError
  service_error : Order.Error → HandlerError

pub record World : Type 0 where
  pub unmarshal : String → Option OrderStatusChanged
  pub marshal : OrderStatusChanged → Option String
  pub sha256_hex : String → String

-- `string(message.Headers[name])`
abbrev pub header : Message → String → String
header m name = elim (m.headers name) [ none ↦ "" | some value ↦ value ]

unfoldable pub validate_partner_status_payload :
    String → String → String → OrderStatusChanged → Result HandlerError Status
validate_partner_status_payload event_type partition_key aggregate_id p =
    if p.callback_id == ""
      || p.order_id == ""
      || p.restaurant_id == ""
      || p.external_store_id == ""
      || is_zero p.partner_occurred_at
      || p.order_id != partition_key
      || p.order_id != aggregate_id
    then err invalid_partner_status_message
    else if event_type == order_accepted_type && p.status == accepted_status
    then ok accepted
    else if event_type == order_rejected_type && p.status == rejected_status
    then ok rejected
    else err invalid_partner_status_message

abbrev pub or_fail : {A : Type 0} → Option A → HandlerError → Result HandlerError A
or_fail none e = err e
or_fail (some a) e = ok a

-- `Handle` up to the input of the service
unfoldable pub partner_event_input : World → Message → Result HandlerError ApplyPartnerEventRecord
unfolding validate_partner_status_payload
partner_event_input w m = do
  event_version ← or_fail (atoi (header m "event_version")) invalid_partner_status_message
  fail_if
      (header m "event_id" == ""
        || event_version != 1
        || header m "producer" != "partner-service"
        || header m "aggregate_type" != "order"
        || m.key == ""
        || m.value == "")
      invalid_partner_status_message
  payload ← or_fail (w.unmarshal m.value) invalid_partner_status_message
  status ←
      validate_partner_status_payload (header m "event_type") m.key (header m "aggregate_id")
        payload
  canonical ←
      or_fail (w.marshal (record payload { partner_occurred_at = utc payload.partner_occurred_at }))
        encoding
  ok (record {
    event_id = header m "event_id";
    event_type = header m "event_type";
    order_id = payload.order_id;
    new_status = status;
    payload_fingerprint = w.sha256_hex canonical;
  })

-- the answer of the service without its result
abbrev pub without_result :
    {S : Type 0}
    → Result Order.Error ApplyPartnerEventResult × S
    → Result HandlerError (Unit {0}) × S
without_result (err e, s) = (err (service_error e), s)
without_result (ok _, s) = (ok tt, s)

-- `Handle`
unfoldable pub handle :
    {S : Type 0}
    → World
    → (ApplyPartnerEventRecord → S → Result Order.Error ApplyPartnerEventResult × S)
    → Message
    → S
    → Result HandlerError (Unit {0}) × S
unfolding partner_event_input
handle w apply_partner_event m s = elim (partner_event_input w m) [
  | err e ↦ (err e, s)
  | ok input ↦ without_result (apply_partner_event input s)
]
