-- ===== src/Partner/Outbox.antt =====
-- internal/partner/postgres/outbox.go: the outbox of the partner schema. Its code is that of
-- internal/order/postgres/outbox.go over the table partner.outbox_messages, so each operation is the
-- one of that store on a table of its own.
use test_task_autumn.Prelude.{ℕ, String, none, List, nat_eq, string_eq, Result}
use test_task_autumn.Events.Envelope.{Time, Envelope}
use test_task_autumn.Database.{Tx}
use test_task_autumn.Platform.Relay.{Message}
use test_task_autumn.Platform.Outbox as Orders
use test_task_autumn.Platform.Outbox.{OutboxConfig, OutboxError, Row, Outbox}

-- `NewOutboxStore`
abbrev pub new_partner_outbox_store :
    (String → String) → OutboxConfig → Result OutboxError OutboxConfig
new_partner_outbox_store = Orders.new_outbox_store

-- `messageFromRow`
abbrev pub partner_message_from_row :
    (String → String) → (Time → String) → OutboxConfig → Row → Message
partner_message_from_row = Orders.message_from_row

-- `Claim`
abbrev pub claim_partner_messages :
    (String → String) → (Time → String) → OutboxConfig → ℕ → Tx OutboxError Outbox (List Message)
claim_partner_messages = Orders.claim

-- `MarkPublished`
abbrev pub mark_partner_published : OutboxConfig → String → Tx OutboxError Outbox (Unit {0})
mark_partner_published = Orders.mark_published

-- `MarkFailed`
abbrev pub mark_partner_failed : OutboxConfig → String → String → Tx OutboxError Outbox (Unit {0})
mark_partner_failed = Orders.mark_failed

-- the row that insertCallbackOutboxSQL makes of an event; its JSONB payload is read by `jsonb` of
-- `messageFromRow`
abbrev pub partner_outbox_row : Envelope → Row
partner_outbox_row event = record {
  event = event;
  published_at = none;
  locked_by = none;
  locked_until = none;
  next_attempt_at = none;
  publish_attempts = 0;
  last_error = none;
}
