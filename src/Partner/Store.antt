-- ===== src/Partner/Store.antt =====
-- internal/partner/postgres/store.go. A transaction is one step on the tables: the advisory lock keeps
-- transactions of one event apart, and a row that a statement reads is not changed before its end.
pub mod Retries
use test_task_autumn.Prelude.{
  ℕ, zero, suc, ◌+◌, ◌-◌, ◌*◌, ◌/◌, ◌%◌, ◌^◌, ◌≤◌, ◌<◌, String, ◌<>◌, ◌≡◌, refl, sym, ap, ◌∙◌, ◌≢◌,
  ◌↔◌, ◌⊎◌, inl, inr, Bool, true, false, not, ◌&&◌, ◌||◌, Option, none, some, List, [], ◌∷◌, ◌++◌,
  map, arith, eq_iff, eq_refl, ltb, leb, if◌then◌else◌, Eq, ◌==◌, ◌!=◌, nat_eq, string_eq,
  Bool-cases, Option-cases, Map, empty_map, insert, length, is_empty, take, keep_if, All,
  length-append, is_empty-append_cons, length-take-le, contains, Result, ok, err, >>=-eq-ok,
  Result-cases, fail_if,
}
use test_task_autumn.Events.Contracts.{OrderCreated}
use test_task_autumn.Database.{Tx, pure, throw, query, write, from_result, transaction, ◌>>=◌, ◌>>◌}
use test_task_autumn.Partner.Errors.{
  Error, inbox_conflict, integration_not_found, encoding, database,
}
use test_task_autumn.Partner.Tables.{
  Tables, Integration, SubmissionRow, InboxRow, insert_submission, insert_inbox,
}
use test_task_autumn.Partner.Intake.{ReceiveOrderRecord, ReceiveOrderResult, or_fail}

-- selectIntegrationSQL
abbrev pub active_integration : String → Tables → Option Integration
active_integration restaurant_id t = elim (t.integrations restaurant_id) [
  | none ↦ none
  | some x ↦ if x.status == "active" then some x else none
]

-- insertSubmissionSQL
abbrev pub submission_row : ReceiveOrderRecord → Integration → String → SubmissionRow
submission_row r x payload = record {
  id = r.submission_id;
  order_id = r.order_id;
  restaurant_id = r.restaurant_id;
  external_store_id = x.external_store_id;
  destination_url = x.callback_url;
  status = "pending";
  payload = payload;
  correlation_id = r.correlation_id;
  source_event_id = r.event_id;
  attempts = 0;
  locked_by = none;
  locked_until = none;
  next_attempt_at = none;
  last_error = none;
  submitted_at = none;
}

abbrev pub inbox_row : ReceiveOrderRecord → InboxRow
inbox_row r = record {
  event_type = r.event_type;
  event_version = r.event_version;
  aggregate_id = r.order_id;
  payload_fingerprint = r.payload_fingerprint;
}

-- the rest of the body after `lookupInbox`
unfoldable pub receive_new :
    (OrderCreated → Option String) → ReceiveOrderRecord → Tx Error Tables ReceiveOrderResult
receive_new marshal r = do
  found ← query database (active_integration r.restaurant_id)
  x ← from_result (or_fail found integration_not_found)
  payload ← from_result (or_fail (marshal r.payload) encoding)
  write database (insert_submission (submission_row r x payload))
  write database (insert_inbox r.event_id (inbox_row r))
  pure (record { submission_id = r.submission_id; duplicate = false })

unfoldable pub receive_existing : ReceiveOrderRecord → InboxRow → Tx Error Tables ReceiveOrderResult
receive_existing r existing =
    if existing.payload_fingerprint != r.payload_fingerprint || existing.aggregate_id != r.order_id
    then throw inbox_conflict
    else pure (record { submission_id = ""; duplicate = true })

abbrev pub receive_found :
    (OrderCreated → Option String)
    → ReceiveOrderRecord
    → Option InboxRow
    → Tx Error Tables ReceiveOrderResult
receive_found marshal r none = receive_new marshal r
receive_found marshal r (some existing) = receive_existing r existing

unfoldable pub receive_body :
    (OrderCreated → Option String) → ReceiveOrderRecord → Tx Error Tables ReceiveOrderResult
unfolding receive_new receive_existing
receive_body marshal r = do
  query database (λ t. tt)
  found ← query database (λ t. t.inbox r.event_id)
  receive_found marshal r found

-- `ReceiveOrder`
unfoldable pub receive_order :
    (OrderCreated → Option String) → ReceiveOrderRecord → Tx Error Tables ReceiveOrderResult
unfolding receive_body
receive_order marshal r = transaction database (receive_body marshal r)
