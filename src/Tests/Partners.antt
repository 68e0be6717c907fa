-- ===== src/Tests/Partners.antt =====
-- The partner service on a concrete order, and its callbacks.
use test_task_autumn.Prelude.{
  ◌+◌, String, ◌<>◌, ◌≡◌, refl, ◌⊎◌, true, false, Option, none, some, List, [], ◌∷◌, arith,
  if◌then◌else◌, ◌==◌, nat_eq, string_eq, empty_map, insert, contains, Result, ok, err,
}
use test_task_autumn.Events.Envelope.{Time, Envelope}
use test_task_autumn.Events.Contracts.{OrderCreated, OrderStatusChanged}
use test_task_autumn.Database.{Plan, fine, fails, lost}
use test_task_autumn.Platform.Claims.{update_where, selected, claim, sort_rows, insert_row, find}
use test_task_autumn.Partner.Tables.{Tables, Integration, SubmissionRow}
use test_task_autumn.Partner.Intake.{ReceiveOrderRecord}
use test_task_autumn.Partner.Store.{receive_order}
use test_task_autumn.Partner.Store.Retries.{redelivered, receive_order_once}
use test_task_autumn.Partner.CallbackService.{ReceiveRecord}
use test_task_autumn.Partner.Callbacks.{submission_status, receive_status_callback}
use test_task_autumn.Partner.Callbacks.Safety.{Accepts}
use test_task_autumn.Partner.Callbacks.Retries.{
  callback_writes, resent, receive_status_callback_once,
}
use test_task_autumn.Partner.Callbacks.Final.{decision_final}
use test_task_autumn.Partner.Dispatch.{Submission, SendError, run}
use test_task_autumn.Partner.RestaurantClient.{send}
use test_task_autumn.Partner.Submissions.{
  is_owned, submitted_row, failed_row, SubmissionConfig, Queue, row_id, is_claimable, lock_row,
  in_order,
}
use test_task_autumn.Partner.Submissions.Decided.{
  status_of, submission_store, dispatch_keeps_decided,
}
use test_task_autumn.Partner.Submissions.Sent.{IsUnreachable, dispatch_submits_sent}
use test_task_autumn.Partner.Submissions.Locks.{
  submission_claims_disjoint, submits, gives_up, claims, stays,
}

abbrev noon : Time
noon = record { instant = 43200; location = 0 }

abbrev integration : Integration
integration = record {
  external_store_id = "ext-1";
  callback_url = "http://restaurant";
  shared_secret_hash = "digest";
  status = "active";
}

abbrev row : SubmissionRow
row = record {
  id = "sub-1";
  order_id = "ord-1";
  restaurant_id = "rst-1";
  external_store_id = "ext-1";
  destination_url = "http://restaurant";
  status = "pending";
  payload = "{}";
  correlation_id = "req-1";
  source_event_id = "evt-1";
  attempts = 0;
  locked_by = none;
  locked_until = none;
  next_attempt_at = none;
  last_error = none;
  submitted_at = none;
}

abbrev tables : Tables
tables = record {
  integrations = insert empty_map "rst-1" integration;
  submissions = [];
  inbox = empty_map;
  callbacks = empty_map;
  outbox = [];
}

abbrev order : OrderCreated
order = record {
  order_id = "ord-1";
  user_id = "usr-1";
  restaurant_id = "rst-1";
  status = "pending_restaurant_confirmation";
  total_cents = 500;
  items = [];
}

abbrev marshal : OrderCreated → Option String
marshal p = some "{}"

abbrev delivery : ReceiveOrderRecord
delivery = record {
  submission_id = "sub-1";
  event_id = "evt-1";
  event_type = "order.created.v1";
  event_version = 1;
  correlation_id = "req-1";
  order_id = "ord-1";
  restaurant_id = "rst-1";
  payload_fingerprint = "print-1";
  payload = order;
}

-- The commit of the first delivery is lost, and a statement of the second fails.
abbrev attempts : List (String × Plan)
attempts =
    ("sub-1", fine ∷ fine ∷ fine ∷ fine ∷ fine ∷ fine ∷ lost ∷ [])
    ∷ ("sub-2", fine ∷ fails ∷ [])
    ∷ []

receive_order_once_example :
    (redelivered marshal delivery attempts tables ≡ tables)
    ⊎ ((id : String) × (redelivered marshal delivery attempts tables
          ≡ (receive_order marshal (record delivery { submission_id = id }) [] tables).2))
receive_order_once_example = receive_order_once marshal delivery attempts tables

abbrev status : OrderStatusChanged
status = record {
  callback_id = "cb-1";
  order_id = "ord-1";
  restaurant_id = "rst-1";
  external_store_id = "ext-1";
  status = "accepted";
  partner_occurred_at = noon;
}

abbrev event : Envelope
event = record {
  event_id = "evt-2";
  event_type = "partner.order_accepted.v1";
  event_version = 1;
  occurred_at = noon;
  producer = "partner-service";
  aggregate_type = "order";
  aggregate_id = "ord-1";
  partition_key = "ord-1";
  correlation_id = "req-2";
  causation_id = "cb-1";
  payload = "{}";
}

abbrev callback : ReceiveRecord
callback = record {
  callback_id = "cb-1";
  token_digest = "digest";
  payload_fingerprint = "print-2";
  payload = status;
  outbox_event = event;
}

abbrev marshal_status : OrderStatusChanged → Option String
marshal_status p = some "{}"

abbrev submitted : Tables
submitted = record tables { submissions = record row { status = "submitted" } ∷ [] }

callback_writes_example :
    ((receive_status_callback marshal_status callback (fine ∷ []) submitted).2 ≡ submitted)
    ⊎ Accepts marshal_status callback submitted
        (receive_status_callback marshal_status callback (fine ∷ []) submitted).2
callback_writes_example = callback_writes marshal_status callback (fine ∷ []) submitted

receive_status_callback_once_example :
    (resent marshal_status callback
        ((event, fails ∷ []) ∷ (record event { event_id = "evt-3" }, []) ∷ [])
        submitted
      ≡ submitted)
    ⊎ ((e : Envelope) × (resent marshal_status callback
            ((event, fails ∷ []) ∷ (record event { event_id = "evt-3" }, []) ∷ [])
            submitted
          ≡ (receive_status_callback marshal_status
              (record callback { outbox_event = e })
              []
              submitted).2))
receive_status_callback_once_example =
    receive_status_callback_once marshal_status callback
      ((event, fails ∷ []) ∷ (record event { event_id = "evt-3" }, []) ∷ []) submitted

abbrev decided : Tables
decided = record tables { submissions = record row { status = "rejected" } ∷ [] }

decided_status : submission_status status decided.submissions ≡ some "rejected"
unfolding submission_status
decided_status = refl

decision_final_example :
    submission_status status
      (receive_status_callback marshal_status callback [] decided).2.submissions
    ≡ some "rejected"
decision_final_example =
    decision_final marshal_status callback [] decided status "rejected" decided_status refl

abbrev config : SubmissionConfig
config = record { dispatcher_id = "dispatcher-1"; lock_ttl = 30000000000; retry_delay = 5000000000 }

abbrev rows : List SubmissionRow
rows =
    row
    ∷ record row {
      id = "sub-2";
      order_id = "ord-2";
      source_event_id = "evt-4";
      status = "accepted";
    }
    ∷ []

row_test : contains (selected row_id in_order (is_claimable 100) 10 rows) "sub-1" ≡ true
unfolding selected sort_rows insert_row is_claimable
row_test = refl

abbrev second_config : SubmissionConfig
second_config = record config { dispatcher_id = "dispatcher-2" }

-- the table after the claim, and after a claim and two marks of another dispatcher
abbrev claimed : List SubmissionRow
claimed = claim row_id in_order (is_claimable 100) (lock_row config 100) 10 rows

abbrev touched : List SubmissionRow
touched = update_where row_id (is_owned second_config "sub-1") (submitted_row 180) (
    update_where row_id (is_owned second_config "sub-1") (failed_row second_config "down" false 170)
      (claim row_id in_order (is_claimable 150) (lock_row second_config 150) 10 claimed))

submission_claims_disjoint_example :
    contains (selected row_id in_order (is_claimable 200) 10 touched) "sub-1" ≡ false
submission_claims_disjoint_example =
    submission_claims_disjoint config 100 200 10 10 "sub-1" rows touched (refl, (refl, tt)) row_test
      (submits second_config "sub-1" 180 (
        gives_up second_config "sub-1" "down" false 170 refl
          (claims second_config 150 10 (omega arith) stays)))
      (omega arith)

abbrev queue : Queue
queue = record { rows = rows; clock = λ n. 100 + n }

-- A restaurant that answers 503 each time.
abbrev overloaded : Submission → Unit {0} → Result SendError (Unit {0}) × Unit {0}
overloaded = send (λ url. some url) (λ request n. (ok 503, n))

second_accepted : status_of queue "sub-2" ≡ some "accepted"
unfolding status_of find
second_accepted = refl

-- the text with a space after it
abbrev jsonb : String → String
jsonb text = text <> " "

dispatch_keeps_decided_example :
    status_of
      (run (submission_store jsonb config) overloaded 3 10 2 [] (lost ∷ []) queue tt).2
      "sub-2"
    ≡ some "accepted"
dispatch_keeps_decided_example =
    dispatch_keeps_decided jsonb config overloaded 3 10 2 [] (lost ∷ []) queue tt "sub-2" "accepted"
      second_accepted refl

-- A restaurant that takes every submission but "sub-1".
abbrev picky : Submission → Unit {0} → Result SendError (Unit {0}) × Unit {0}
picky s n = (
  (if s.id == "sub-1" then err (record { message = "down"; is_permanent = false }) else ok tt),
  n,
)

abbrev sent_queue : Queue
sent_queue = record {
  rows = record row { id = "sub-1"; status = "submitted" } ∷ [];
  clock = λ n. 100 + n;
}

picky-IsUnreachable : IsUnreachable picky "sub-1"
picky-IsUnreachable s n h = (record { message = "down"; is_permanent = false }, rw h refl)

sent_before : status_of sent_queue "sub-1" ≡ some "submitted"
unfolding status_of find
sent_before = refl

sent_test :
    status_of
      (run (submission_store jsonb config) picky 3 10 2 [] (lost ∷ []) sent_queue tt).2
      "sub-1"
    ≡ some "submitted"
sent_test =
    dispatch_keeps_decided jsonb config picky 3 10 2 [] (lost ∷ []) sent_queue tt "sub-1"
      "submitted" sent_before refl

dispatch_submits_sent_example : status_of sent_queue "sub-1" ≡ some "submitted"
dispatch_submits_sent_example =
    dispatch_submits_sent jsonb config picky 3 10 2 [] (lost ∷ []) sent_queue tt "sub-1"
      picky-IsUnreachable sent_test
