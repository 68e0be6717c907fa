-- ===== src/Partner/Callbacks.antt =====
-- internal/partner/postgres/callbacks.go. A transaction is one step on the tables: the advisory lock,
-- `FOR SHARE` and `FOR UPDATE` keep others from what it reads.
pub mod Safety
pub mod Retries
pub mod Final
use test_task_autumn.Prelude.{
  ℕ, zero, suc, ◌+◌, ◌-◌, ◌*◌, ◌/◌, ◌%◌, ◌^◌, ◌≤◌, ◌<◌, String, ◌<>◌, ◌≡◌, refl, sym, ap, ◌∙◌, ◌≢◌,
  ◌↔◌, ◌⊎◌, inl, inr, Bool, true, false, not, ◌&&◌, ◌||◌, Option, none, some, List, [], ◌∷◌, ◌++◌,
  map, arith, eq_iff, eq_refl, ltb, leb, if◌then◌else◌, Eq, ◌==◌, ◌!=◌, nat_eq, string_eq,
  Bool-cases, Option-cases, Map, empty_map, insert, length, is_empty, take, keep_if, All,
  length-append, is_empty-append_cons, length-take-le, contains, Result, ok, err, >>=-eq-ok,
  Result-cases, fail_if,
}
use test_task_autumn.Events.Contracts.{OrderStatusChanged}
use test_task_autumn.Database.{
  Tx, pure, throw, query, write, from_result, require, transaction, ◌>>=◌, ◌>>◌,
}
use test_task_autumn.Partner.Errors.{
  Error, unauthorized_callback, callback_conflict, encoding, database,
}
use test_task_autumn.Partner.Tables.{
  Tables, Integration, SubmissionRow, CallbackRow, insert_callback, insert_outbox,
}
use test_task_autumn.Partner.Intake.{or_fail}
use test_task_autumn.Partner.CallbackService.{ReceiveRecord, ReceiveResult}

-- selectCallbackIntegrationSQL
abbrev pub stored_digest : OrderStatusChanged → Tables → Option String
stored_digest p t = elim (t.integrations p.restaurant_id) [
  | none ↦ none
  | some x ↦
      if x.external_store_id == p.external_store_id && x.status == "active"
      then some x.shared_secret_hash
      else none
]

-- the condition of selectCallbackSubmissionSQL and updateCallbackSubmissionSQL
abbrev pub is_about : OrderStatusChanged → SubmissionRow → Bool
is_about p row =
    row.order_id == p.order_id
    && row.restaurant_id == p.restaurant_id
    && row.external_store_id == p.external_store_id

-- selectCallbackSubmissionSQL; an order has one row
unfoldable pub submission_status : OrderStatusChanged → List SubmissionRow → Option String
submission_status p [] = none
submission_status p (row ∷ rest) =
    if is_about p row then some row.status else submission_status p rest

-- updateCallbackSubmissionSQL; the CHECK on the column admits the two statuses that ReceiveStatusCallback
-- of the callback service lets through
unfoldable pub set_status : OrderStatusChanged → List SubmissionRow → List SubmissionRow
set_status p [] = []
set_status p (row ∷ rest) =
    (if is_about p row then record row { status = p.status } else row) ∷ set_status p rest

-- `ConstantTimeCompare` is 1 exactly on equal texts
unfoldable pub authorize_callback : ReceiveRecord → Tx Error Tables (Unit {0})
authorize_callback r = do
  digest ← query database (stored_digest r.payload)
  digest ← from_result (or_fail digest unauthorized_callback)
  require (digest == r.token_digest) unauthorized_callback

abbrev pub is_decided : String → Bool
is_decided status = status == "accepted" || status == "rejected"

unfoldable pub authorize_callback_submission : ReceiveRecord → Tx Error Tables (Unit {0})
authorize_callback_submission r = do
  status ← query database (λ t. submission_status r.payload t.submissions)
  status ← from_result (or_fail status unauthorized_callback)
  require (not (is_decided status && status != r.payload.status)) callback_conflict

abbrev pub callback_row : ReceiveRecord → String → CallbackRow
callback_row r payload = record {
  order_id = r.payload.order_id;
  external_store_id = r.payload.external_store_id;
  callback_type = r.payload.status;
  payload = payload;
  payload_fingerprint = r.payload_fingerprint;
  received_at = r.outbox_event.occurred_at;
}

abbrev pub is_repeat : ReceiveRecord → CallbackRow → Bool
is_repeat r existing =
    existing.order_id == r.payload.order_id
    && existing.external_store_id == r.payload.external_store_id
    && existing.payload_fingerprint == r.payload_fingerprint

unfoldable pub receive_new :
    (OrderStatusChanged → Option String) → ReceiveRecord → Tx Error Tables ReceiveResult
receive_new marshal r = do
  payload ← from_result (or_fail (marshal r.payload) encoding)
  write database (insert_callback r.callback_id (callback_row r payload))
  write database (insert_outbox r.outbox_event)
  write database (λ t. some (record t { submissions = set_status r.payload t.submissions }))
  pure (record { duplicate = false })

abbrev pub receive_found :
    (OrderStatusChanged → Option String)
    → ReceiveRecord
    → Option CallbackRow
    → Tx Error Tables ReceiveResult
receive_found marshal r none = receive_new marshal r
receive_found marshal r (some existing) =
    if is_repeat r existing then pure (record { duplicate = true }) else throw callback_conflict

unfoldable pub receive_body :
    (OrderStatusChanged → Option String) → ReceiveRecord → Tx Error Tables ReceiveResult
unfolding authorize_callback authorize_callback_submission receive_new
receive_body marshal r = do
  query database (λ t. tt)
  authorize_callback r
  authorize_callback_submission r
  found ← query database (λ t. t.callbacks r.callback_id)
  receive_found marshal r found

-- `ReceiveStatusCallback`
unfoldable pub receive_status_callback :
    (OrderStatusChanged → Option String) → ReceiveRecord → Tx Error Tables ReceiveResult
unfolding receive_body
receive_status_callback marshal r = transaction database (receive_body marshal r)
