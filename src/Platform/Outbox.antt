-- ===== src/Platform/Outbox.antt =====
-- internal/order/postgres/outbox.go: the outbox_messages of the orders schema as the store of a relay.
-- A duration is a number of nanoseconds, an instant counts them as well. The payload column is JSONB: a
-- row keeps the text that was inserted, and `jsonb` of it is the text that the database gives back.
pub mod Locks
pub mod Marks
use test_task_autumn.Prelude.{
  ℕ, zero, suc, ◌+◌, ◌-◌, ◌*◌, ◌/◌, ◌%◌, ◌^◌, ◌≤◌, ◌<◌, String, ◌<>◌, ◌≡◌, refl, sym, ap, ◌∙◌, ◌≢◌,
  ◌↔◌, ◌⊎◌, inl, inr, Bool, true, false, not, ◌&&◌, ◌||◌, Option, none, some, List, [], ◌∷◌, ◌++◌,
  map, arith, eq_iff, eq_refl, ltb, leb, if◌then◌else◌, Eq, ◌==◌, ◌!=◌, nat_eq, string_eq,
  Bool-cases, Option-cases, Map, empty_map, insert, length, is_empty, take, keep_if, All,
  length-append, is_empty-append_cons, length-take-le, contains, Result, ok, err, >>=-eq-ok,
  Result-cases, fail_if,
}
use test_task_autumn.Prelude.Texts.{str_leb, decimal64}
use test_task_autumn.Events.Envelope.{Time, Envelope}
use test_task_autumn.Database.{
  fine, fails, lost, Plan, Tx, pure, throw, execute, statement, transaction, require, ◌>>=◌, ◌>>◌,
}
use test_task_autumn.Platform.Claims
use test_task_autumn.Platform.Relay.{Message}

pub data OutboxError : Type 0 where
  invalid_outbox_config outbox_message_not_owned database : OutboxError

pub record OutboxConfig : Type 0 where
  pub relay_id : String
  pub topic : String
  pub lock_ttl : ℕ
  pub retry_delay : ℕ

-- a row of orders.outbox_messages; `none` is NULL
pub record Row : Type 0 where
  pub event : Envelope
  pub published_at : Option ℕ
  pub locked_by : Option String
  pub locked_until : Option ℕ
  pub next_attempt_at : Option ℕ
  pub publish_attempts : ℕ
  pub last_error : Option String

-- The table, and the clock of the database: `clock n` is `now()` of the n-th statement from here.
pub record Outbox : Type 0 where
  pub rows : List Row
  pub clock : ℕ → ℕ

abbrev pub second : ℕ
second = 1000000000

-- `int64(duration / time.Second)`, and `$n * interval '1 second'`
abbrev pub duration_seconds : ℕ → ℕ
duration_seconds duration = duration / second

abbrev pub event_id : Row → String
event_id r = r.event.event_id

-- `NewOutboxStore` on a database; `trim_space` is strings.TrimSpace.
unfoldable pub new_outbox_store : (String → String) → OutboxConfig → Result OutboxError OutboxConfig
new_outbox_store trim_space config =
    if trim_space config.relay_id == ""
    then err invalid_outbox_config
    else if trim_space config.topic == ""
    then err invalid_outbox_config
    else if ltb config.lock_ttl second
    then err invalid_outbox_config
    else if ltb config.retry_delay second
    then err invalid_outbox_config
    else ok
        (record config { relay_id = trim_space config.relay_id; topic = trim_space config.topic })

-- `messageFromRow`; `format` is `Format(time.RFC3339Nano)`, and `jsonb` what `payload::text` of
-- claimOutboxSQL gives of an inserted text, with keys and spaces in the database's own order.
unfoldable pub message_from_row : (String → String) → (Time → String) → OutboxConfig → Row → Message
message_from_row jsonb format config row = record {
  event_id = row.event.event_id;
  topic = config.topic;
  key = row.event.partition_key;
  value = jsonb row.event.payload;
  headers =
      ("aggregate_id", row.event.aggregate_id)
      ∷ ("aggregate_type", row.event.aggregate_type)
      ∷ ("causation_id", row.event.causation_id)
      ∷ ("correlation_id", row.event.correlation_id)
      ∷ ("event_id", row.event.event_id)
      ∷ ("event_type", row.event.event_type)
      ∷ ("event_version", decimal64 row.event.event_version)
      ∷ ("occurred_at", format row.event.occurred_at)
      ∷ ("producer", row.event.producer)
      ∷ [];
}

-- `IS NULL OR < now()`, and `IS NULL OR <= now()`
abbrev is_over : Option ℕ → ℕ → Bool
is_over none now = true
is_over (some t) now = ltb t now

abbrev is_due : Option ℕ → ℕ → Bool
is_due none now = true
is_due (some t) now = leb t now

abbrev pub is_unpublished : Row → Bool
is_unpublished r = elim r.published_at [ none ↦ true | some _ ↦ false ]

-- the condition of claimOutboxSQL
unfoldable pub is_claimable : ℕ → Row → Bool
is_claimable now r = is_unpublished r && is_over r.locked_until now && is_due r.next_attempt_at now

-- `ORDER BY occurred_at, id`
unfoldable pub is_before : Row → Row → Bool
is_before r s =
    ltb r.event.occurred_at.instant s.event.occurred_at.instant
    || (r.event.occurred_at.instant == s.event.occurred_at.instant
        && str_leb (event_id r) (event_id s))

-- the `SET` of claimOutboxSQL
unfoldable pub lock_row : OutboxConfig → ℕ → Row → Row
lock_row config now r = record r {
  locked_by = some config.relay_id;
  locked_until = some (now + duration_seconds config.lock_ttl * second);
  publish_attempts = suc r.publish_attempts;
  last_error = none;
}

abbrev pub is_locked_by : Option String → String → Bool
is_locked_by none relay = false
is_locked_by (some owner) relay = owner == relay

-- the condition of the two marks
unfoldable pub is_owned : OutboxConfig → String → Row → Bool
is_owned config id r =
    event_id r == id && is_locked_by r.locked_by config.relay_id && is_unpublished r

-- the `SET` of markOutboxPublishedSQL and of markOutboxFailedSQL
unfoldable pub published_row : ℕ → Row → Row
published_row now r = record r {
  published_at = some now;
  locked_by = none;
  locked_until = none;
  next_attempt_at = none;
  last_error = none;
}

unfoldable pub failed_row : OutboxConfig → String → ℕ → Row → Row
failed_row config cause now r = record r {
  locked_by = none;
  locked_until = none;
  last_error = some cause;
  next_attempt_at = some (now + duration_seconds config.retry_delay * second);
}

-- The table after a statement that leaves these rows.
abbrev pub tick : Outbox → List Row → Outbox
tick d rows = record { rows = rows; clock = λ n. d.clock (suc n) }

module _ (jsonb : String → String) (format : Time → String) (config : OutboxConfig) where
  unfoldable pub claim_body : ℕ → Tx OutboxError Outbox (List Message)
  unfolding is_claimable lock_row is_before message_from_row
  claim_body limit = statement database (λ d.
      let now = d.clock 0 in
      ok (
        map (message_from_row jsonb format config) (
            Claims.returned event_id is_before (is_claimable now) (lock_row config now) limit
              d.rows),
        tick d
            (Claims.claim event_id is_before (is_claimable now) (lock_row config now) limit d.rows),
      ))

  -- `Claim`
  unfoldable pub claim : ℕ → Tx OutboxError Outbox (List Message)
  claim limit =
      if limit == 0 then throw invalid_outbox_config else transaction database (claim_body limit)

module _ (config : OutboxConfig) where
  -- one `UPDATE`, and requireOwnedOutboxRow
  unfoldable pub mark_owned : String → (ℕ → Row → Row) → Tx OutboxError Outbox (Unit {0})
  unfolding is_owned
  mark_owned id change =
      execute database (λ d. (
        Claims.affected event_id (is_owned config id) d.rows,
        tick d (Claims.update_where event_id (is_owned config id) (change (d.clock 0)) d.rows),
      ))
      >>= λ rows. require (rows != 0) outbox_message_not_owned

  -- `MarkPublished`
  unfoldable pub mark_published : String → Tx OutboxError Outbox (Unit {0})
  unfolding published_row
  mark_published id = mark_owned id published_row

  -- `MarkFailed`, with the text of its cause
  unfoldable pub mark_failed : String → String → Tx OutboxError Outbox (Unit {0})
  unfolding failed_row
  mark_failed id cause = mark_owned id (failed_row config cause)
