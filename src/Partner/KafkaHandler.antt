-- ===== src/Partner/KafkaHandler.antt =====
-- internal/partner/kafkahandler/order_created.go. The service is an argument.
pub mod Arrivals
use test_task_autumn.Prelude.{
  ℕ, zero, suc, ◌+◌, ◌-◌, ◌*◌, ◌/◌, ◌%◌, ◌^◌, ◌≤◌, ◌<◌, String, ◌<>◌, ◌≡◌, refl, sym, ap, ◌∙◌, ◌≢◌,
  ◌↔◌, ◌⊎◌, inl, inr, Bool, true, false, not, ◌&&◌, ◌||◌, Option, none, some, List, [], ◌∷◌, ◌++◌,
  map, arith, eq_iff, eq_refl, ltb, leb, if◌then◌else◌, Eq, ◌==◌, ◌!=◌, nat_eq, string_eq,
  Bool-cases, Option-cases, Map, empty_map, insert, length, is_empty, take, keep_if, All,
  length-append, is_empty-append_cons, length-take-le, contains, Result, ok, err, ◌>>=◌, >>=-eq-ok,
  Result-cases, ◌>>◌, fail_if,
}
use test_task_autumn.Prelude.Numbers.{atoi}
use test_task_autumn.Partner.Errors as Partner
use test_task_autumn.Partner.Intake.{HandleOrderCreatedInput, ReceiveOrderResult}
use test_task_autumn.Platform.Consumer.{Message}

pub data HandlerError : Type 0 where
  invalid_message : HandlerError
  service_error : Partner.Error → HandlerError

-- `string(message.Headers[name])`
abbrev pub header : Message → String → String
header m name = elim (m.headers name) [ none ↦ "" | some value ↦ value ]

abbrev pub or_fail : {A : Type 0} → Option A → HandlerError → Result HandlerError A
or_fail none e = err e
or_fail (some a) e = ok a

-- `Handle` up to the input of the service
unfoldable pub order_created_input : Message → Result HandlerError HandleOrderCreatedInput
order_created_input m = do
  fail_if
      (header m "event_id" == ""
        || header m "event_type" == ""
        || header m "event_version" == ""
        || m.key == ""
        || m.value == "")
      invalid_message
  event_version ← or_fail (atoi (header m "event_version")) invalid_message
  ok (record {
    event_id = header m "event_id";
    event_type = header m "event_type";
    event_version = event_version;
    partition_key = m.key;
    correlation_id = header m "correlation_id";
    payload = m.value;
  })

-- the answer of the service without its result
abbrev pub without_result :
    {S : Type 0} → Result Partner.Error ReceiveOrderResult × S → Result HandlerError (Unit {0}) × S
without_result (err e, s) = (err (service_error e), s)
without_result (ok _, s) = (ok tt, s)

-- `Handle`
unfoldable pub handle :
    {S : Type 0}
    → (HandleOrderCreatedInput → S → Result Partner.Error ReceiveOrderResult × S)
    → Message
    → S
    → Result HandlerError (Unit {0}) × S
unfolding order_created_input
handle handle_order_created m s = elim (order_created_input m) [
  | err e ↦ (err e, s)
  | ok input ↦ without_result (handle_order_created input s)
]
