-- ===== src/Tests/Consumers.antt =====
-- The consumer over a broker with a list of messages.
use test_task_autumn.Prelude.{
  ℕ, ◌+◌, ◌-◌, String, ◌≡◌, refl, inl, inr, true, none, some, List, [], ◌∷◌, ◌++◌, arith,
  if◌then◌else◌, ◌==◌, nat_eq, string_eq, Bool-cases, Result, ok, err,
}
use test_task_autumn.Prelude.Texts.{sort_strings}
use test_task_autumn.Platform.Relay as Relay
use test_task_autumn.Platform.Consumer.{
  KafkaMessage, message, record_of, header_map, World, Call, fetched, handled, committed, State,
  fetch, run, until_success,
}
use test_task_autumn.Platform.Consumer.Delivery.{
  IsInOrder, IsHandledBefore, run-IsInOrder, run_commits_handled, committed_records,
}
use test_task_autumn.Platform.Consumer.Progress.{
  succeeds, fails_once, Delivers, done, delivers, run-Delivers, run_ends,
}
use test_task_autumn.Platform.Publisher.{build_kafka_message}

run_program : Unit {0}
unfolding run until_success header_map committed_records
run_program = tt

-- A broker with messages to come, and a handler and commits that fail so many times; the context is
-- cancelled once `to_live` calls of the handler have returned.
record Broker : Type 0 where
  to_come : List KafkaMessage
  handler_failures : ℕ
  commit_failures : ℕ
  to_live : ℕ

abbrev next_message : Broker → Result String KafkaMessage × Broker
next_message b = elim b.to_come [
  | [] ↦ (err "no message", b)
  | m ∷ rest ↦ (ok m, record b { to_come = rest })
]

abbrev handle_next : Broker → Result String (Unit {0}) × Broker
handle_next b =
    let lived = record b { to_live = b.to_live - 1 } in
    if b.handler_failures == 0
    then (ok tt, lived)
    else (err "database unavailable", record lived { handler_failures = b.handler_failures - 1 })

abbrev commit_next : Broker → Result String (Unit {0}) × Broker
commit_next b =
    if b.commit_failures == 0
    then (ok tt, b)
    else (err "coordinator unavailable", record b { commit_failures = b.commit_failures - 1 })

abbrev world : World Broker
world = record {
  fetch_message = next_message;
  commit_messages = λ topic partition offset b. commit_next b;
  handle = λ m b. handle_next b;
  report = λ e b. b;
  context_error = λ b. if b.to_live == 0 then some "context canceled" else none;
  is_timer_first = λ b. (true, b);
}

abbrev order_message : KafkaMessage
order_message = record {
  topic = "orders.events.v1";
  partition = 1;
  offset = 7;
  key = "ord-1";
  value = "{}";
  headers = ("event_id", "evt-1") ∷ [];
}

abbrev broker : Broker
broker = record {
  to_come = order_message ∷ [];
  handler_failures = 1;
  commit_failures = 1;
  to_live = 3;
}

abbrev begin : Broker → State Broker
begin b = record { world = b; calls = [] }

-- The handler fails once and the commit fails once.
calls_test :
    (run world 2 1 (begin broker)).1.calls
    ≡ committed (record_of order_message) (ok tt)
      ∷ committed (record_of order_message) (err "coordinator unavailable")
      ∷ handled (message (record_of order_message)) (ok tt)
      ∷ handled (message (record_of order_message)) (err "database unavailable")
      ∷ fetched (ok (record_of order_message))
      ∷ []
unfolding run_program
calls_test = refl

run-IsInOrder_example : IsInOrder (run world 2 1 (begin broker)).1.calls
run-IsInOrder_example = run-IsInOrder world 2 1 broker

abbrev earlier : List Call
earlier =
    committed (record_of order_message) (err "coordinator unavailable")
    ∷ handled (message (record_of order_message)) (ok tt)
    ∷ handled (message (record_of order_message)) (err "database unavailable")
    ∷ fetched (ok (record_of order_message))
    ∷ []

run_commits_handled_example : IsHandledBefore (record_of order_message) earlier
run_commits_handled_example =
    run_commits_handled world 2 1 broker [] earlier (record_of order_message) (ok tt) calls_test

abbrev end : State Broker
end = (run world 2 1 (begin broker)).1

broker-Delivers : Delivers world 2 1 (begin broker) (record_of order_message ∷ []) end
unfolding run_program
broker-Delivers =
    delivers refl refl
      (fails_once refl (record { alive = refl; waits = refl; same_calls = refl }) (succeeds refl))
      (omega arith)
      (fails_once refl (record { alive = refl; waits = refl; same_calls = refl }) (succeeds refl))
      (omega arith) done

run-Delivers_example :
    (run world 2 (1 + 1) (begin broker) ≡ run world 2 1 end)
    × (committed_records end.calls
        ≡ committed_records (begin broker).calls ++ record_of order_message ∷ [])
run-Delivers_example =
    run-Delivers world 2 1 1 (begin broker) end (record_of order_message ∷ []) broker-Delivers

-- The context is cancelled in the first call of the handler.
abbrev short_lived : Broker
short_lived = record broker { to_live = 1 }

abbrev fetched_short : State Broker
fetched_short = (fetch world (begin short_lived)).1

still_cancelled :
    (b : Broker)
    → world.context_error b ≡ some "context canceled"
    → world.context_error (commit_next b).1 ≡ some "context canceled"
still_cancelled b h = elim (Bool-cases (b.commit_failures == 0)) [ inl e ↦ rw e h | inr e ↦ rw e h ]

run_ends_example : (run world 1 2 (begin short_lived)).0 ≡ some (err "context canceled")
run_ends_example =
    run_ends world 0 0 "context canceled" (record_of order_message) (begin short_lived)
      fetched_short (λ topic partition offset b h. still_cancelled b h) refl refl refl

abbrev outbox_message : Relay.Message
outbox_message = record {
  event_id = "evt-1";
  topic = "orders.events.v1";
  key = "ord-1";
  value = "{}";
  headers = ("producer", "order-service") ∷ ("event_type", "order.created.v1") ∷ [];
}

build_kafka_message_test :
    (build_kafka_message 0 3 outbox_message).headers
    ≡ ("event_id", "evt-1")
      ∷ ("event_type", "order.created.v1")
      ∷ ("producer", "order-service")
      ∷ []
unfolding build_kafka_message sort_strings
build_kafka_message_test = refl
