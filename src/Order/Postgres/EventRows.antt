-- ===== src/Order/Postgres/EventRows.antt =====
-- The rows that a partner event leaves.
use test_task_autumn.Prelude.{
  ◌+◌, ◌^◌, ◌<◌, String, ◌≡◌, refl, sym, ap, ◌∙◌, inl, inr, true, Option, none, some, arith, eq_iff,
  ◌==◌, nat_eq, string_eq, Bool-cases, Map, insert, ok,
}
use mathlib.Core.Path.{subst}
use test_task_autumn.Order.Status.{Status, allowed, can_transition}
use test_task_autumn.Order.Domain.{Order}
use test_task_autumn.Order.Domain.Lifecycle.{moved}
use test_task_autumn.Order.Service.Ports.{ApplyPartnerEventRecord}
use test_task_autumn.Order.Memory.{Store, with_event}
use test_task_autumn.Order.Postgres.Tables.{OrderRow, OrderTables, is_order_row, is_known}
use test_task_autumn.Order.Postgres.Rows.{Json, order_row, rows_of, read_items}
use test_task_autumn.Order.Postgres.View.{ShowsOrder, Shows}
use test_task_autumn.Order.Postgres.{inbox_row}

known_target : (from to : Status) → can_transition from to ≡ true → is_known to ≡ true
unfolding can_transition allowed
known_target from to h = ground arith

pub moved_row :
    (o : Order) (to : Status)
    → can_transition o.status to ≡ true
    → o.total_cents < 2 ^ 63
    → o.version + 1 < 2 ^ 63
    → is_order_row (order_row (moved o to)) ≡ true
moved_row o to allowed_ total version = ground (arith, known_target o.status to allowed_)

module _ (json : Json) where
  pub shown_order :
      (id : String) (t : OrderTables) (s : Store) (o : Order)
      → Shows json t s
      → s.orders id ≡ some o
      → ShowsOrder json id (t.orders id) (rows_of id t.items) (some o)
  shown_order id t s o shows found =
      subst (ShowsOrder json id (t.orders id) (rows_of id t.items)) found (shows.orders id)

  -- A found order stands in a row of its own values, and under its own id.
  pub found_row :
      (id : String) (row : Option OrderRow) (t : OrderTables) (o : Order)
      → ShowsOrder json id row (rows_of id t.items) (some o)
      → (row ≡ some (order_row o))
        × (read_items json (rows_of id t.items) ≡ ok o.items)
        × (o.id ≡ id)
  found_row id none t o h = absurd h
  found_row id (some row) t o (read, same, own) = (ap some same, read, own)

  -- The tables after the writes of an event, with the rows `orders` of the orders.
  unfoldable pub after_event :
      ApplyPartnerEventRecord → Map String OrderRow → OrderTables → OrderTables
  after_event r orders t = record t {
    orders = orders;
    inbox = insert t.inbox r.event_id (inbox_row json r);
  }

  pub after_event-Shows :
      (r : ApplyPartnerEventRecord) (orders : Map String OrderRow) (t : OrderTables) (s : Store)
      (o : Order)
      → Shows json t s
      → o.id ≡ r.order_id
      → ((id : String)
          → ShowsOrder json id (orders id) (rows_of id t.items) (insert s.orders o.id o id))
      → Shows json (after_event r orders t) (with_event s r o)
  unfolding after_event
  after_event-Shows r orders t s o shows own shown = record {
    orders = shown;
    idempotency = shows.idempotency;
    inbox = λ e. elim (Bool-cases (r.event_id == e)) [
      | inl hit ↦ rw (hit, own) refl
      | inr miss ↦ rw miss (shows.inbox e)
    ];
    outbox = shows.outbox;
  }

  pub orders_same :
      (r : ApplyPartnerEventRecord) (t : OrderTables) (s : Store) (o : Order)
      → Shows json t s
      → s.orders r.order_id ≡ some o
      → o.id ≡ r.order_id
      → (id : String)
      → ShowsOrder json id (t.orders id) (rows_of id t.items) (insert s.orders o.id o id)
  orders_same r t s o shows found own id = elim (Bool-cases (o.id == id)) [
    | inl hit ↦
        let same : s.orders id ≡ some o =
          ap s.orders (sym ((eq_iff o.id id).0 hit) ∙ own) ∙ found in
        rw hit (shown_order id t s o shows same)
    | inr miss ↦ rw miss (shows.orders id)
  ]

  pub orders_moved :
      (r : ApplyPartnerEventRecord) (t : OrderTables) (s : Store) (o : Order) (to : Status)
      → Shows json t s
      → s.orders r.order_id ≡ some o
      → o.id ≡ r.order_id
      → (id : String)
      → ShowsOrder json id
          (insert t.orders o.id (order_row (moved o to)) id)
          (rows_of id t.items)
          (insert s.orders o.id (moved o to) id)
  orders_moved r t s o to shows found own id = elim (Bool-cases (o.id == id)) [
    | inl hit ↦
        let there : o.id ≡ id = (eq_iff o.id id).0 hit in
        let same : s.orders id ≡ some o = ap s.orders (sym there ∙ own) ∙ found in
        let (_, read, _) = found_row id (t.orders id) t o (shown_order id t s o shows same) in
        rw hit (read, refl, there)
    | inr miss ↦ rw miss (shows.orders id)
  ]
