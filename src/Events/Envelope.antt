-- ===== src/Events/Envelope.antt =====
-- internal/platform/events/envelope.go. A payload is the text of its bytes, a version an int64 bit
-- pattern. A time is an instant, 0 for Go's zero time, in a location, 0 for UTC.
use test_task_autumn.Prelude.{
  ℕ, String, Bool, not, ◌||◌, Option, none, some, if◌then◌else◌, ◌==◌, nat_eq, string_eq,
}
use test_task_autumn.Prelude.Words.{is_positive64}

pub record Time : Type 0 where
  pub instant : ℕ
  pub location : ℕ

-- `t.IsZero()`
abbrev pub is_zero : Time → Bool
is_zero t = t.instant == 0

-- `t.UTC()`
abbrev pub utc : Time → Time
utc t = record t { location = 0 }

pub record Envelope : Type 0 where
  pub event_id : String
  pub event_type : String
  pub event_version : ℕ
  pub occurred_at : Time
  pub producer : String
  pub aggregate_type : String
  pub aggregate_id : String
  pub partition_key : String
  pub correlation_id : String
  pub causation_id : String
  pub payload : String

-- `NewEnvelope`, whose input has the fields of an envelope; `none` is ErrInvalidEnvelope, and
-- `clock` the reading of `time.Now()`.
unfoldable pub new_envelope : Time → Envelope → Option Envelope
new_envelope clock input =
    if input.event_id == ""
      || input.event_type == ""
      || not (is_positive64 input.event_version)
      || input.producer == ""
      || input.aggregate_type == ""
      || input.aggregate_id == ""
      || input.partition_key == ""
      || input.payload == ""
    then none
    else some (record input {
      occurred_at = if is_zero input.occurred_at then utc clock else input.occurred_at;
    })
