-- ===== src/Platform/Publisher/Rows.antt =====
-- The headers that a consumer reads of a row of an outbox.
use test_task_autumn.Prelude.{
  ℕ, String, ◌≡◌, refl, sym, ap, ◌∙◌, inl, inr, false, Option, none, some, eq_iff, if◌then◌else◌,
  ◌==◌, nat_eq, string_eq, Bool-cases,
}
use test_task_autumn.Prelude.Texts.{decimal64}
use test_task_autumn.Events.Envelope.{Time, Envelope}
use test_task_autumn.Platform.Outbox.{Row, OutboxConfig, message_from_row}
use test_task_autumn.Platform.Consumer.{Message, record_of, message}
use test_task_autumn.Platform.Publisher.{lookup, build_kafka_message}
use test_task_autumn.Platform.Publisher.Headers.{message-build_kafka_message}

-- The headers, and the key and the value, carry the event.
pub record Carries (jsonb : String → String) (m : Message) (e : Envelope) : Type 0 where
  pub key : m.key ≡ e.partition_key
  pub value : m.value ≡ jsonb e.payload
  pub event_id : m.headers "event_id" ≡ some e.event_id
  pub event_type : m.headers "event_type" ≡ some e.event_type
  pub event_version : m.headers "event_version" ≡ some (decimal64 e.event_version)
  pub producer : m.headers "producer" ≡ some e.producer
  pub aggregate_type : m.headers "aggregate_type" ≡ some e.aggregate_type
  pub aggregate_id : m.headers "aggregate_id" ≡ some e.aggregate_id
  pub correlation_id : m.headers "correlation_id" ≡ some e.correlation_id

-- A text that is decoded, where no text is not, is not empty.
pub decoded_given :
    {P : Type 0} (unmarshal : String → Option P) (text : String) (p : P)
    → unmarshal "" ≡ none
    → unmarshal text ≡ some p
    → (text == "") ≡ false
decoded_given unmarshal text p nothing h = elim (Bool-cases (text == "")) [
  | inr given ↦ given
  | inl empty ↦
      let e : text ≡ "" = (eq_iff text "").0 empty in
      absurd (cc (sym (ap unmarshal e) ∙ h, nothing))
]

module _ (jsonb : String → String) (format : Time → String) (config : OutboxConfig)
    (partition offset : ℕ) where
  -- What the handler of a consumer is given of a row that the relay published.
  unfoldable pub arrived : Row → Message
  arrived row =
      message (
        record_of (build_kafka_message partition offset (message_from_row jsonb format config row)))

  arrived_header :
      (row : Row) (name : String)
      → (arrived row).headers name ≡ (
          if "event_id" == name
          then some row.event.event_id
          else lookup (message_from_row jsonb format config row).headers name)
  unfolding arrived message_from_row
  arrived_header row name =
      (message-build_kafka_message partition offset (message_from_row jsonb format config row)
        name).3

  pub arrived-Carries : (row : Row) → Carries jsonb (arrived row) row.event
  unfolding arrived message_from_row build_kafka_message lookup
  arrived-Carries row = record {
    key = refl;
    value = refl;
    event_id = arrived_header row "event_id";
    event_type = arrived_header row "event_type";
    event_version = arrived_header row "event_version";
    producer = arrived_header row "producer";
    aggregate_type = arrived_header row "aggregate_type";
    aggregate_id = arrived_header row "aggregate_id";
    correlation_id = arrived_header row "correlation_id";
  }
