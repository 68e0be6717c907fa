-- ===== src/Tests/Postgres.antt =====
-- The tables of the orders on a concrete order.
use test_task_autumn.Prelude.{
  ◌+◌, ◌^◌, ◌<◌, ◌≡◌, refl, inl, inr, false, none, some, [], ◌∷◌, arith, if◌then◌else◌, ◌==◌, ◌!=◌,
  nat_eq, string_eq, empty_map, ok, err,
}
use mathlib.Core.Path.{subst}
use test_task_autumn.Prelude.Words.{int64}
use test_task_autumn.Database.{fine, fails, lost, pure, throw, statement, transaction, ◌>>=◌}
use test_task_autumn.Events.Envelope.{Envelope}
use test_task_autumn.Order.Status.{pending, accepted, can_transition}
use test_task_autumn.Order.Errors.{Error}
use test_task_autumn.Order.Domain.{Order, OrderItem, transition_to}
use test_task_autumn.Order.Service.Ports.{CreateOrderRecord, ApplyPartnerEventRecord}
use test_task_autumn.Order.Memory as Memory
use test_task_autumn.Order.Memory.{Store, new_store}
use test_task_autumn.Order.Memory.Laws.{new_store-IsValid}
use test_task_autumn.Order.Postgres.Tables.{OrderTables, has_event}
use test_task_autumn.Order.Postgres.Rows.{Json, rows_of, read_items}
use test_task_autumn.Order.Postgres.View.{Shows}
use test_task_autumn.Order.Postgres.NewRows.{Fits}
use test_task_autumn.Order.Postgres.Refines.{UnderFaults, create_order_refines}
use test_task_autumn.Order.Postgres.Events.{apply_partner_event_refines}
use test_task_autumn.Order.Postgres.Reads.{Reads, get_order_refines}
use test_task_autumn.Order.Postgres.RoundTrip.{get_order-create_order}
use test_task_autumn.Order.Postgres.Modifiers.{create_order_refuses_bare}
use test_task_autumn.Order.Postgres.{
  load_items, load_order, get_order, find_by_key, insert_items, create_new, create_body,
  create_order, apply_body, apply_partner_event,
}

run_program : Unit {0}
unfolding create_order create_body create_new insert_items find_by_key load_order load_items
    get_order apply_partner_event apply_body read_items rows_of has_event pure throw statement
    transaction ◌>>=◌ transition_to can_transition int64
run_program = tt

-- JSON of the one list that is used.
abbrev sample_json : Json
sample_json = record {
  marshal = λ ids. elim ids [ none ↦ some "null" | some _ ↦ some "[\"cheese\"]" ];
  unmarshal = λ text. if text == "null" then some [] else some ("cheese" ∷ []);
  is_array = λ text. text != "null";
}

abbrev pizza : OrderItem
pizza = record {
  menu_item_id = "pizza";
  name = "Pizza";
  unit_price_cents = 1300;
  quantity = 2;
  modifier_item_ids = "cheese" ∷ [];
  line_total_cents = 2600;
}

abbrev tea : OrderItem
tea = record {
  menu_item_id = "tea";
  name = "Tea";
  unit_price_cents = 250;
  quantity = 1;
  modifier_item_ids = [];
  line_total_cents = 250;
}

abbrev made : Order
made = record {
  id = "ord-1";
  user_id = "usr-1";
  restaurant_id = "rst-1";
  status = pending;
  items = pizza ∷ [];
  total_cents = 2600;
  version = 1;
}

abbrev event : Envelope
event = record {
  event_id = "evt-1";
  event_type = "order.created.v1";
  event_version = 1;
  occurred_at = record { instant = 43200; location = 0 };
  producer = "order-service";
  aggregate_type = "order";
  aggregate_id = "ord-1";
  partition_key = "ord-1";
  correlation_id = "req-1";
  causation_id = "key-1";
  payload = "{}";
}

abbrev filing : CreateOrderRecord
filing = record {
  order = made;
  idempotency_key = "key-1";
  request_fingerprint = "print-1";
  outbox_event = event;
}

abbrev bare_filing : CreateOrderRecord
bare_filing = record filing { order = record made { items = pizza ∷ tea ∷ []; total_cents = 2850 } }

abbrev acceptance : ApplyPartnerEventRecord
acceptance = record {
  event_id = "evt-2";
  event_type = "partner.order_accepted.v1";
  order_id = "ord-1";
  new_status = accepted;
  payload_fingerprint = "print-2";
}

abbrev empty_tables : OrderTables
empty_tables = record {
  orders = empty_map;
  items = [];
  idempotency = empty_map;
  inbox = empty_map;
  outbox = [];
}

empty-Shows : Shows sample_json empty_tables new_store
unfolding rows_of
empty-Shows = record {
  orders = λ id. refl;
  idempotency = λ k. refl;
  inbox = λ e. refl;
  outbox = refl;
}

filing-Fits : Fits sample_json filing new_store
unfolding has_event int64
filing-Fits = record {
  fresh = refl;
  order = refl;
  items = (("[\"cheese\"]", refl, refl, refl), tt);
  new_event = refl;
  event = refl;
}

filing_test :
    (create_order sample_json filing [] empty_tables).0
    ≡ ok (record { order = made; reused_idempotency_key = false })
unfolding run_program
filing_test = refl

create_order_refines_example :
    UnderFaults sample_json
      (create_order sample_json filing (fine ∷ fine ∷ lost ∷ []) empty_tables)
      empty_tables
      (Memory.create_order filing new_store)
create_order_refines_example =
    create_order_refines sample_json filing (fine ∷ fine ∷ lost ∷ []) empty_tables new_store
      empty-Shows new_store-IsValid filing-Fits

-- the tables with the order, and the store that they show
abbrev filed_tables : OrderTables
filed_tables = (create_order sample_json filing [] empty_tables).2

abbrev filed : Store
filed = (Memory.create_order filing new_store).1

filed-Shows : Shows sample_json filed_tables filed
unfolding run_program Memory.create_order Memory.find_by_key
filed-Shows =
    elim (create_order_refines sample_json filing [] empty_tables new_store empty-Shows
      new_store-IsValid filing-Fits) [
        | inl ((e, failed), _) ↦ absurd (cc (filing_test, failed))
        | inr (_, shows) ↦ shows
      ]

filed_bounds :
    (o : Order)
    → filed.orders "ord-1" ≡ some o
    → (o.total_cents < 2 ^ 63) × (o.version + 1 < 2 ^ 63)
unfolding Memory.create_order Memory.find_by_key
filed_bounds o h =
    let same : some made ≡ some o = h in
    let found : made ≡ o = cc same in
    subst (λ x. (x.total_cents < 2 ^ 63) × (x.version + 1 < 2 ^ 63)) found
      (omega arith, omega arith)

apply_partner_event_refines_example :
    UnderFaults sample_json
      (apply_partner_event sample_json acceptance (fine ∷ fails ∷ []) filed_tables)
      filed_tables
      (Memory.apply_partner_event acceptance filed)
apply_partner_event_refines_example =
    apply_partner_event_refines sample_json acceptance (fine ∷ fails ∷ []) filed_tables filed
      filed-Shows filed_bounds

get_order_refines_example :
    Reads sample_json
      (get_order sample_json "ord-1" "usr-1" [] filed_tables)
      filed_tables
      (Memory.get_order "ord-1" "usr-1" filed)
get_order_refines_example =
    get_order_refines sample_json "ord-1" "usr-1" [] filed_tables filed filed-Shows

get_order-create_order_example :
    Reads sample_json (get_order sample_json "ord-1" "usr-1" [] filed_tables) filed_tables (ok made)
get_order-create_order_example =
    get_order-create_order sample_json filing [] [] empty_tables new_store empty-Shows
      new_store-IsValid filing-Fits filing_test

create_order_refuses_bare_example :
    ((e : Error) × ((create_order sample_json bare_filing [] empty_tables).0 ≡ err e))
    × ((create_order sample_json bare_filing [] empty_tables).2 ≡ empty_tables)
create_order_refuses_bare_example =
    create_order_refuses_bare sample_json refl refl bare_filing (pizza ∷ []) [] tea [] empty_tables
      refl refl refl
