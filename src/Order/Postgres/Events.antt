-- ===== src/Order/Postgres/Events.antt =====
-- A partner event on the tables does what it does on the memory store.
use test_task_autumn.Prelude.{
  ◌+◌, ◌^◌, ◌<◌, String, ◌≡◌, refl, sym, ap, ◌∙◌, inl, inr, true, none, some, [], arith, ◌==◌,
  nat_eq, string_eq, Bool-cases, Option-cases, Map, insert, Result, ok, err,
}
use mathlib.Core.Path.{subst}
use test_task_autumn.Database.{Plan, Tx, pure, throw, statement, transaction, ◌>>=◌}
use test_task_autumn.Order.Status.Edges.{can_transition_iff}
use test_task_autumn.Order.Errors.{Error, database}
use test_task_autumn.Order.Domain.{Order, transition_to}
use test_task_autumn.Order.Domain.Lifecycle.{moved, transition_to_cases}
use test_task_autumn.Order.Service.Ports.{ApplyPartnerEventRecord}
use test_task_autumn.Order.Memory as Memory
use test_task_autumn.Order.Memory.{
  Store, InboxRecord, apply_duplicate, apply_transition, with_event,
}
use test_task_autumn.Order.Postgres.Tables.{OrderRow, InboxRow, OrderTables, is_order_row}
use test_task_autumn.Order.Postgres.Rows.{Json, order_row}
use test_task_autumn.Order.Postgres.View.{Shows, inbox_record, load_order_shown}
use test_task_autumn.Order.Postgres.Refines.{Refines, UnderFaults, Settled-Refines}
use test_task_autumn.Order.Postgres.Faults.{apply_partner_event_settles}
use test_task_autumn.Order.Postgres.{
  duplicate_event, save_event, apply_found, apply_body, apply_partner_event,
}
use test_task_autumn.Order.Postgres.EventRows.{
  moved_row, shown_order, found_row, after_event, after_event-Shows, orders_same, orders_moved,
}

module _ (json : Json) where
  -- With no fault, the statements return what the memory store returns, and where that is no error
  -- leave tables that show what it leaves.
  abbrev Runs : {A : Type 0} → Result Error A × Plan × OrderTables → Result Error A × Store → Type 0
  Runs {A} o m = (t : OrderTables) × (o ≡ (m.0, [], t)) × Shows json t m.1

  save_event-Runs :
      (r : ApplyPartnerEventRecord) (t : OrderTables) (s : Store) (o : Order)
      → Shows json t s
      → s.orders r.order_id ≡ some o
      → o.id ≡ r.order_id
      → t.inbox r.event_id ≡ none
      → o.total_cents < 2 ^ 63
      → o.version + 1 < 2 ^ 63
      → Runs
          (save_event json r (transition_to o r.new_status) [] t)
          (apply_transition s r (transition_to o r.new_status))
  unfolding after_event ◌>>=◌ pure throw statement
  save_event-Runs r t s o shows found own new total version =
      elim (transition_to_cases o r.new_status) [
        | inl (_, q) ↦ rw q (
          after_event json r t.orders t,
          rw new refl,
          after_event-Shows json r t.orders t s o shows own
              (orders_same json r t s o shows found own),
        )
        | inr (inl (_, _, q)) ↦ rw q (t, refl, shows)
        | inr (inr (_, edge, q)) ↦
            let allowed_ = (can_transition_iff o.status r.new_status).1 edge in
            let to : Order = moved o r.new_status in
            let orders : Map String OrderRow = insert t.orders o.id (order_row to) in
            let there : t.orders o.id ≡ some (order_row o) =
              ap t.orders own
              ∙ (found_row json r.order_id (t.orders r.order_id) t o
                  (shown_order json r.order_id t s o shows found)).0 in
            let fits : is_order_row (order_row to) ≡ true =
              moved_row o r.new_status allowed_ total version in
            rw q (
              after_event json r orders t,
              rw (there, fits, new) refl,
              after_event-Shows json r orders t s to shows own
                  (orders_moved json r t s o r.new_status shows found own),
            )
      ]

  duplicate_event_runs :
      (r : ApplyPartnerEventRecord) (row : InboxRow) (t : OrderTables) (s : Store)
      → Shows json t s
      → duplicate_event json r row [] t ≡ (
        apply_duplicate s r
            (record { fingerprint = row.payload_fingerprint; order_id = row.aggregate_id }),
        [],
        t,
      )
  unfolding ◌>>=◌
  duplicate_event_runs r row t s shows =
      elim (Bool-cases (row.payload_fingerprint == r.payload_fingerprint)) [
        | inr differ ↦ rw differ refl
        | inl same ↦
            let load = load_order_shown json row.aggregate_id t s shows in
            elim (Option-cases (s.orders row.aggregate_id)) [
              | inl q ↦ rw (same, load, q) refl
              | inr (o, q) ↦ rw (same, load, q) refl
            ]
      ]

  apply_found-Runs :
      (r : ApplyPartnerEventRecord) (t : OrderTables) (s : Store)
      → Shows json t s
      → ((o : Order)
          → s.orders r.order_id ≡ some o
          → (o.total_cents < 2 ^ 63) × (o.version + 1 < 2 ^ 63))
      → Runs (apply_found json r (t.inbox r.event_id) [] t) (Memory.apply_partner_event r s)
  unfolding ◌>>=◌ Memory.apply_partner_event
  apply_found-Runs r t s shows bounded = elim (Option-cases (t.inbox r.event_id)) [
    | inr (row, q) ↦
        let recorded = sym (shows.inbox r.event_id) ∙ ap inbox_record q in
        (
          t,
          rw (q, recorded, Memory.apply_partner_event) (duplicate_event_runs r row t s shows),
          rw (recorded, Memory.apply_partner_event) shows,
        )
    | inl q ↦
        let recorded = sym (shows.inbox r.event_id) ∙ ap inbox_record q in
        let load = load_order_shown json r.order_id t s shows in
        elim (Option-cases (s.orders r.order_id)) [
          | inl gone ↦ (
            t,
            rw (q, recorded, load, gone, Memory.apply_partner_event) refl,
            rw (recorded, gone, Memory.apply_partner_event) shows,
          )
          | inr (o, there) ↦
              let own =
                (found_row json r.order_id (t.orders r.order_id) t o
                  (shown_order json r.order_id t s o shows there)).2 in
              let (total, version) = bounded o there in
              rw (q, recorded, load, there, Memory.apply_partner_event)
                (save_event-Runs r t s o shows there own q total version)
        ]
  ]

  -- An error of the memory store leaves it alone, as the rollback does the tables.
  apply_partner_event_kept :
      (r : ApplyPartnerEventRecord) (s : Store) (e : Error)
      → (Memory.apply_partner_event r s).0 ≡ err e
      → (Memory.apply_partner_event r s).1 ≡ s
  unfolding Memory.apply_partner_event transition_to
  apply_partner_event_kept r s e h = ground arith

  transaction-Runs :
      {A : Type 0} (body : Tx Error OrderTables A) (t : OrderTables) (m : Result Error A × Store)
      → Runs (body [] t) m
      → ((e : Error) → m.0 ≡ err e → Shows json t m.1)
      → Refines json (transaction database body [] t) m
  unfolding transaction
  transaction-Runs body t (ok a, s) (t', run, shows) kept = rw run (refl, shows)
  transaction-Runs body t (err e, s) (t', run, shows) kept = rw run (refl, kept e refl)

  -- For tables that show a memory store, an order whose total and next version are no negative int64,
  -- and any faults: `ApplyPartnerEvent` reports an error, and leaves the tables or such as show what
  -- the memory store leaves; or it returns what the memory store returns, and leaves tables that show
  -- what that leaves.
  pub apply_partner_event_refines :
      (r : ApplyPartnerEventRecord) (plan : Plan) (t : OrderTables) (s : Store)
      → Shows json t s
      → ((o : Order)
          → s.orders r.order_id ≡ some o
          → (o.total_cents < 2 ^ 63) × (o.version + 1 < 2 ^ 63))
      → UnderFaults json (apply_partner_event json r plan t) t (Memory.apply_partner_event r s)
  unfolding apply_partner_event apply_body ◌>>=◌
  apply_partner_event_refines r plan t s shows bounded =
      Settled-Refines json (apply_body json r) (apply_partner_event json r plan t) t
        (Memory.apply_partner_event r s) (apply_partner_event_settles json r plan t)
        (transaction-Runs (apply_body json r) t (Memory.apply_partner_event r s)
          (apply_found-Runs r t s shows bounded)
          (λ e h. subst (Shows json t) (sym (apply_partner_event_kept r s e h)) shows))
