-- ===== src/Tests/Relays.antt =====
-- The outbox, the relay and the sample restaurant on concrete data.
use test_task_autumn.Prelude.{
  ◌+◌, String, ◌≡◌, refl, ◌⊎◌, true, false, none, some, List, [], ◌∷◌, arith, eq_refl, nat_eq,
  string_eq, empty_map, insert, contains, ok,
}
use test_task_autumn.Events.Envelope.{Time, Envelope}
use test_task_autumn.Events.Contracts.{OrderCreated}
use test_task_autumn.Database.{execute, transaction, statement, pure, throw, ◌>>=◌}
use test_task_autumn.Platform.Claims.{
  selected, claim, sort_rows, insert_row, returned, update_where, affected,
}
use test_task_autumn.Platform.Outbox as Outbox
use test_task_autumn.Platform.Outbox.{
  message_from_row, is_owned, published_row, failed_row, OutboxConfig, Row, Outbox as OutboxTable,
  event_id, is_claimable, is_before, lock_row,
}
use test_task_autumn.Platform.Outbox.Locks.{claims_disjoint, publishes, gives_up, claims, stays}
use test_task_autumn.Platform.Outbox.Marks.{outbox_store, is_marked}
use test_task_autumn.Platform.Relay.{Message, Publisher, run, run_once, publish_all}
use test_task_autumn.Platform.Relay.Delivery.{run_delivers}
use test_task_autumn.Sample.{
  Restaurant, Step, receives, changes, returns, StoredOrder, Delivery, callback_of,
}
use test_task_autumn.Sample as Sample
use test_task_autumn.Sample.Decisions.{decision_of, decision_once}

abbrev noon : Time
noon = record { instant = 43200; location = 0 }

abbrev jsonb : String → String
jsonb text = text

abbrev event : Envelope
event = record {
  event_id = "evt-1";
  event_type = "order.created.v1";
  event_version = 1;
  occurred_at = noon;
  producer = "order-service";
  aggregate_type = "order";
  aggregate_id = "ord-1";
  partition_key = "ord-1";
  correlation_id = "req-1";
  causation_id = "key-1";
  payload = "{}";
}

abbrev row : Row
row = record {
  event = event;
  published_at = none;
  locked_by = none;
  locked_until = none;
  next_attempt_at = none;
  publish_attempts = 0;
  last_error = none;
}

abbrev config : OutboxConfig
config = record {
  relay_id = "relay-1";
  topic = "orders";
  lock_ttl = 30000000000;
  retry_delay = 5000000000;
}

row_test : contains (selected event_id is_before (is_claimable 100) 10 (row ∷ [])) "evt-1" ≡ true
unfolding selected is_claimable
row_test = refl

abbrev other : OutboxConfig
other = record config { relay_id = "relay-2" }

-- the table after the claim, and after a claim and two marks of another relay
abbrev claimed : List Row
claimed = claim event_id is_before (is_claimable 100) (lock_row config 100) 10 (row ∷ [])

abbrev touched : List Row
touched = update_where event_id (is_owned other "evt-1") (published_row 180) (
    update_where event_id (is_owned other "evt-1") (failed_row other "down" 170)
      (claim event_id is_before (is_claimable 150) (lock_row other 150) 10 claimed))

claims_disjoint_example :
    contains (selected event_id is_before (is_claimable 200) 10 touched) "evt-1" ≡ false
claims_disjoint_example =
    claims_disjoint config 100 200 10 10 "evt-1" (row ∷ []) touched (refl, tt) row_test
      (publishes other "evt-1" 180
        (gives_up other "evt-1" "down" 170 refl (claims other 150 10 (omega arith) stays)))
      (omega arith)

log_keeps :
    (m : Message) (ids : List String) (i : String)
    → contains ids i ≡ true
    → contains (m.event_id ∷ ids) i ≡ true
log_keeps m ids i h = ground arith

log_delivers : (m : Message) (ids : List String) → contains (m.event_id ∷ ids) m.event_id ≡ true
log_delivers m ids = ground (arith, eq_refl m.event_id)

-- a broker that keeps the ids of its messages
abbrev log : Publisher (List String)
log = record {
  publish = λ m ids. (ok tt, m.event_id ∷ ids);
  is_delivered = contains;
  publish_keeps = log_keeps;
  publish_delivers = λ m ids h. log_delivers m ids;
}

abbrev format : Time → String
format t = ""

abbrev outbox : OutboxTable
outbox = record { rows = row ∷ []; clock = λ n. 100 + n }

published_test :
    is_marked (run (outbox_store jsonb format config) log 10 1 [] [] outbox []).2.rows "evt-1"
    ≡ true
unfolding outbox_store run run_once publish_all is_marked Outbox.claim Outbox.claim_body claim
    returned selected sort_rows insert_row is_claimable lock_row is_before message_from_row
    Outbox.mark_published Outbox.mark_owned is_owned published_row update_where affected execute
    transaction statement pure throw ◌>>=◌
published_test = refl

run_delivers_example :
    (is_marked outbox.rows "evt-1" ≡ true)
    ⊎ (contains (run (outbox_store jsonb format config) log 10 1 [] [] outbox []).3 "evt-1" ≡ true)
unfolding outbox_store
run_delivers_example =
    run_delivers (outbox_store jsonb format config) log 10 1 [] [] outbox [] "evt-1" published_test

abbrev order : OrderCreated
order = record {
  order_id = "ord-1";
  user_id = "usr-1";
  restaurant_id = "rst-1";
  status = "accepted";
  total_cents = 500;
  items = [];
}

abbrev stored : StoredOrder
stored = record {
  order = order;
  external_store_id = "ext-1";
  submission_id = "sub-1";
  status_callback_id = "cb-1";
  callback_acknowledged = false;
  callback_occurred_at = noon;
  callback_in_flight = true;
  fingerprint = "print-1";
}

abbrev restaurant : Restaurant
restaurant = record {
  orders = insert empty_map "ord-1" stored;
  flights =
      record { order_id = "ord-1"; callback = callback_of stored; existing_decision = false } ∷ [];
}

stored_decided : decision_of restaurant.orders "ord-1" ≡ some (callback_of stored)
unfolding decision_of
stored_decided = refl

-- The callback fails, and the operator asks for the other decision and then for the same again.
abbrev steps : List Step
steps =
    returns 0 false
    ∷ changes "ord-1" (some "rejected") "cb-2" noon
    ∷ changes "ord-1" (some "accepted") "cb-3" noon
    ∷ []

decision_once_example :
    decision_of (Sample.run (λ o. some "print-1") true steps restaurant).orders "ord-1"
    ≡ some (callback_of stored)
decision_once_example =
    decision_once (λ o. some "print-1") true steps restaurant "ord-1" (callback_of stored)
      stored_decided
