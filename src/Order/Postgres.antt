-- ===== src/Order/Postgres.antt =====
-- internal/order/postgres/store.go. A transaction is one step on the tables: the advisory locks keep
-- apart the transactions of one key and of one event, and `FOR UPDATE` those of one order. The two
-- methods that only read run statement by statement, with no transaction.
pub mod Tables
pub mod Rows
pub mod View
pub mod Faults
pub mod NewRows
pub mod Refines
pub mod EventRows
pub mod Events
pub mod Reads
pub mod RoundTrip
pub mod Modifiers
use test_task_autumn.Prelude.{
  ℕ, zero, suc, ◌+◌, ◌-◌, ◌*◌, ◌/◌, ◌%◌, ◌^◌, ◌≤◌, ◌<◌, String, ◌<>◌, ◌≡◌, refl, sym, ap, ◌∙◌, ◌≢◌,
  ◌↔◌, ◌⊎◌, inl, inr, Bool, true, false, not, ◌&&◌, ◌||◌, Option, none, some, List, [], ◌∷◌, ◌++◌,
  map, arith, eq_iff, eq_refl, ltb, leb, if◌then◌else◌, Eq, ◌==◌, ◌!=◌, nat_eq, string_eq,
  Bool-cases, Option-cases, Map, empty_map, insert, length, is_empty, take, keep_if, All,
  length-append, is_empty-append_cons, length-take-le, contains, Result, ok, err, >>=-eq-ok,
  Result-cases, fail_if,
}
use test_task_autumn.Prelude.Words.{int64}
use test_task_autumn.Events.Envelope.{Envelope}
use test_task_autumn.Database.{Tx, pure, throw, query, write, from_result, transaction, ◌>>=◌, ◌>>◌}
use test_task_autumn.Order.Status.{Status}
use test_task_autumn.Order.Errors.{
  Error, idempotency_conflict, order_not_found, inbox_conflict, encoding, database,
}
use test_task_autumn.Order.Domain.{Order, OrderItem, transition_to}
use test_task_autumn.Order.Service.Ports.{
  CreateOrderRecord, CreateOrderResult, ApplyPartnerEventRecord, ApplyPartnerEventResult,
}
use test_task_autumn.Order.Memory.{IdempotencyKey, IdempotencyRecord, record_key, key_eq}
use test_task_autumn.Order.Postgres.Tables.{
  OrderRow, ItemRow, InboxRow, OrderTables, insert_order_row, insert_item_row, insert_idempotency,
  insert_inbox, insert_outbox, update_order,
}
use test_task_autumn.Order.Postgres.Rows.{
  Json, slice, order_row, item_row, rows_of, or_fail, read_items, read_order,
}

module _ (json : Json) where
  -- `loadOrderItems`
  unfoldable pub load_items : String → Tx Error OrderTables (List OrderItem)
  unfolding read_items rows_of
  load_items order_id = do
    rows ← query database (λ t. rows_of order_id t.items)
    from_result (read_items json rows)

  -- `loadOrderFromRow` on the row that a statement has found
  abbrev pub load_row : String → Option OrderRow → Tx Error OrderTables Order
  load_row order_id none = throw order_not_found
  load_row order_id (some row) = do
    items ← load_items order_id
    pure (read_order order_id row items)

  -- `loadOrderByID`, and `loadOrderForUpdate` with a lock on the row
  unfoldable pub load_order : String → Tx Error OrderTables Order
  unfolding load_items
  load_order order_id = do row ← query database (λ t. t.orders order_id); load_row order_id row

  -- selectOrderForUserSQL
  abbrev pub row_for_user : String → String → OrderTables → Option OrderRow
  row_for_user order_id user_id t = elim (t.orders order_id) [
    | none ↦ none
    | some row ↦ if row.user_id == user_id then some row else none
  ]

  -- `GetOrder`
  unfoldable pub get_order : String → String → Tx Error OrderTables Order
  unfolding load_items
  get_order order_id user_id = do
    row ← query database (row_for_user order_id user_id)
    load_row order_id row

  abbrev pub found_key :
      Option IdempotencyRecord → String → Tx Error OrderTables (Option CreateOrderResult)
  found_key none fingerprint = pure none
  found_key (some r) fingerprint =
      if r.fingerprint != fingerprint then throw idempotency_conflict else do
        order ← load_order r.order_id
        pure (some (record { order = order; reused_idempotency_key = true }))

  -- `findOrderByIdempotencyKey`
  unfoldable pub find_by_key :
      IdempotencyKey → String → Tx Error OrderTables (Option CreateOrderResult)
  unfolding load_order
  find_by_key key fingerprint = do
    found ← query database (λ t. t.idempotency key)
    found_key found fingerprint

  -- `FindOrderByIdempotencyKey`
  unfoldable pub find_order_by_idempotency_key :
      String → String → String → Tx Error OrderTables (Option CreateOrderResult)
  unfolding find_by_key
  find_order_by_idempotency_key user_id key fingerprint =
      find_by_key (record { user_id = user_id; key = key }) fingerprint

  -- `insertOrderItems`
  unfoldable pub insert_items : String → List OrderItem → Tx Error OrderTables (Unit {0})
  insert_items order_id [] = pure tt
  insert_items order_id (i ∷ is) = do
    modifiers ← from_result (or_fail (json.marshal (slice i.modifier_item_ids)) encoding)
    write database (insert_item_row json.is_array (item_row order_id i modifiers))
    insert_items order_id is

  abbrev pub key_row : CreateOrderRecord → IdempotencyRecord
  key_row r = record { fingerprint = r.request_fingerprint; order_id = r.order.id }

  -- the rest of `CreateOrder` for a new key
  unfoldable pub create_new : CreateOrderRecord → Tx Error OrderTables CreateOrderResult
  unfolding insert_items
  create_new r = do
    write database (insert_order_row r.order.id (order_row r.order))
    insert_items r.order.id r.order.items
    write database (insert_idempotency (record_key r) (key_row r))
    write database (insert_outbox r.outbox_event)
    pure (record { order = r.order; reused_idempotency_key = false })

  abbrev pub create_found :
      CreateOrderRecord → Option CreateOrderResult → Tx Error OrderTables CreateOrderResult
  create_found r none = create_new r
  create_found r (some existing) = pure existing

  unfoldable pub create_body : CreateOrderRecord → Tx Error OrderTables CreateOrderResult
  unfolding find_by_key create_new
  create_body r = do
    query database (λ t. tt)
    found ← find_by_key (record_key r) r.request_fingerprint
    create_found r found

  -- `CreateOrder`
  unfoldable pub create_order : CreateOrderRecord → Tx Error OrderTables CreateOrderResult
  unfolding create_body
  create_order r = transaction database (create_body r)

  abbrev pub duplicate_event :
      ApplyPartnerEventRecord → InboxRow → Tx Error OrderTables ApplyPartnerEventResult
  duplicate_event r existing =
      if existing.payload_fingerprint != r.payload_fingerprint then throw inbox_conflict else do
        order ← load_order existing.aggregate_id
        pure (record { order = order; duplicate = true; changed = false })

  abbrev pub inbox_row : ApplyPartnerEventRecord → InboxRow
  inbox_row r = record {
    event_type = r.event_type;
    event_version = 1;
    aggregate_id = r.order_id;
    payload_fingerprint = r.payload_fingerprint;
  }

  abbrev pub save_status : Order → Bool → Tx Error OrderTables (Unit {0})
  save_status o changed =
      if changed then write database (update_order o.id o.status o.version) else pure tt

  -- the rest of `ApplyPartnerEvent` after `TransitionTo`
  abbrev pub save_event :
      ApplyPartnerEventRecord
      → Order × Result Error Bool
      → Tx Error OrderTables ApplyPartnerEventResult
  save_event r (o, err e) = throw e
  save_event r (o, ok changed) = do
    save_status o changed
    write database (insert_inbox r.event_id (inbox_row r))
    pure (record { order = o; duplicate = false; changed = changed })

  abbrev pub apply_found :
      ApplyPartnerEventRecord → Option InboxRow → Tx Error OrderTables ApplyPartnerEventResult
  apply_found r (some existing) = duplicate_event r existing
  apply_found r none = do
    order ← load_order r.order_id
    save_event r (transition_to order r.new_status)

  unfoldable pub apply_body : ApplyPartnerEventRecord → Tx Error OrderTables ApplyPartnerEventResult
  unfolding load_order
  apply_body r = do
    query database (λ t. tt)
    found ← query database (λ t. t.inbox r.event_id)
    apply_found r found

  -- `ApplyPartnerEvent`
  unfoldable pub apply_partner_event :
      ApplyPartnerEventRecord → Tx Error OrderTables ApplyPartnerEventResult
  unfolding apply_body
  apply_partner_event r = transaction database (apply_body r)
