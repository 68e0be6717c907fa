-- ===== src/Partner/CallbackService.antt =====
-- internal/partner/callback/service.go. The encoder, the digest, the results of `newID`, `now` and
-- `time.Now`, and the store are arguments; a nil store is `none`.
use test_task_autumn.Prelude.{
  String, Bool, ◌||◌, Option, none, some, if◌then◌else◌, ◌==◌, nat_eq, string_eq, Result, ok, err,
  ◌>>=◌, ◌>>◌, fail_if,
}
use test_task_autumn.Events.Envelope.{Time, is_zero, utc, Envelope, new_envelope}
use test_task_autumn.Events.Contracts.{
  OrderStatusChanged, order_accepted_type, order_rejected_type, accepted_status, rejected_status,
}
use test_task_autumn.Partner.Errors.{Error, invalid_status_callback, encoding, invalid_envelope}
use test_task_autumn.Partner.Intake.{or_fail}

pub record ReceiveStatusCallbackInput : Type 0 where
  pub request_id : String
  pub bearer_token : String
  pub callback_id : String
  pub order_id : String
  pub restaurant_id : String
  pub external_store_id : String
  pub status : String
  pub partner_occurred_at : Time

pub record ReceiveRecord : Type 0 where
  pub callback_id : String
  pub token_digest : String
  pub payload_fingerprint : String
  pub payload : OrderStatusChanged
  pub outbox_event : Envelope

pub record ReceiveResult : Type 0 where
  pub duplicate : Bool

pub record World : Type 0 where
  pub event_id : String
  pub now : Time
  pub clock : Time
  pub marshal : OrderStatusChanged → Option String
  pub sha256_hex : String → String

unfoldable pub validate_and_event_type : ReceiveStatusCallbackInput → Result Error String
validate_and_event_type input =
    if input.callback_id == ""
      || input.order_id == ""
      || input.restaurant_id == ""
      || input.external_store_id == ""
      || input.bearer_token == ""
      || is_zero input.partner_occurred_at
    then err invalid_status_callback
    else if input.status == accepted_status
    then ok order_accepted_type
    else if input.status == rejected_status
    then ok order_rejected_type
    else err invalid_status_callback

abbrev pub callback_payload : ReceiveStatusCallbackInput → OrderStatusChanged
callback_payload input = record {
  callback_id = input.callback_id;
  order_id = input.order_id;
  restaurant_id = input.restaurant_id;
  external_store_id = input.external_store_id;
  status = input.status;
  partner_occurred_at = utc input.partner_occurred_at;
}

-- `ReceiveStatusCallback` after its validation, up to the record that it hands to the store
unfoldable pub callback_record :
    World → ReceiveStatusCallbackInput → String → Result Error ReceiveRecord
callback_record w input event_type = do
  canonical ← or_fail (w.marshal (callback_payload input)) encoding
  fail_if (w.event_id == "") invalid_status_callback
  event ←
      or_fail
        (new_envelope w.clock (record {
          event_id = w.event_id;
          event_type = event_type;
          event_version = 1;
          occurred_at = w.now;
          producer = "partner-service";
          aggregate_type = "order";
          aggregate_id = input.order_id;
          partition_key = input.order_id;
          correlation_id = input.request_id;
          causation_id = input.callback_id;
          payload = canonical;
        }))
        invalid_envelope
  ok (record {
    callback_id = input.callback_id;
    token_digest = w.sha256_hex input.bearer_token;
    payload_fingerprint = w.sha256_hex canonical;
    payload = callback_payload input;
    outbox_event = event;
  })

unfoldable pub receive_status_callback :
    {S : Type 0}
    → World
    → Option (ReceiveRecord → S → Result Error ReceiveResult × S)
    → ReceiveStatusCallbackInput
    → S
    → Result Error ReceiveResult × S
receive_status_callback w store input s = elim (validate_and_event_type input) [
  | err e ↦ (err e, s)
  | ok event_type ↦ elim store [
    | none ↦ (err invalid_status_callback, s)
    | some receive ↦ elim (callback_record w input event_type) [
      | err e ↦ (err e, s)
      | ok r ↦ receive r s
    ]
  ]
]
