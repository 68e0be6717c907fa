-- ===== src/Order/Postgres/Faults.antt =====
-- Whatever fails, a call leaves the tables alone or does what it does with no fault.
use test_task_autumn.Prelude.{
  String, Bool, Option, none, some, List, [], ◌∷◌, nat_eq, string_eq, Result, ok, err,
}
use test_task_autumn.Database.{Plan}
use test_task_autumn.Database.Honest.{
  IsHonest, IsHonest-bind, IsHonest-statement, IsHonest-from_result, honest_rules,
  transaction-Settled, Settled,
}
use test_task_autumn.Order.Errors.{Error, database}
use test_task_autumn.Order.Domain.{Order, OrderItem}
use test_task_autumn.Order.Service.Ports.{
  CreateOrderRecord, CreateOrderResult, ApplyPartnerEventRecord,
}
use test_task_autumn.Order.Memory.{IdempotencyKey, IdempotencyRecord}
use test_task_autumn.Order.Postgres.Tables.{OrderRow, InboxRow, OrderTables}
use test_task_autumn.Order.Postgres.Rows.{Json}
use test_task_autumn.Order.Postgres.{
  load_items, load_row, load_order, find_by_key, found_key, insert_items, create_new, create_found,
  create_body, create_order, save_event, apply_found, apply_body, apply_partner_event,
}

module _ (json : Json) where
  load_row-IsHonest : (id : String) (row : Option OrderRow) → IsHonest (load_row json id row)
  unfolding load_items
  load_row-IsHonest id none = search honest_rules
  load_row-IsHonest id (some row) = search honest_rules depth 8

  load_order-IsHonest : (id : String) → IsHonest (load_order json id)
  unfolding load_order
  load_order-IsHonest id = search (honest_rules, load_row-IsHonest) depth 6

  found_key-IsHonest :
      (found : Option IdempotencyRecord) (fingerprint : String)
      → IsHonest (found_key json found fingerprint)
  found_key-IsHonest none fingerprint = search honest_rules
  found_key-IsHonest (some x) fingerprint = search (honest_rules, load_order-IsHonest) depth 8

  find_by_key-IsHonest :
      (key : IdempotencyKey) (fingerprint : String) → IsHonest (find_by_key json key fingerprint)
  unfolding find_by_key
  find_by_key-IsHonest key fingerprint = search (honest_rules, found_key-IsHonest) depth 6

  insert_items-IsHonest :
      (id : String) (items : List OrderItem) → IsHonest (insert_items json id items)
  unfolding insert_items
  insert_items-IsHonest id [] = search honest_rules
  insert_items-IsHonest id (i ∷ is) =
      IsHonest-bind _
        (λ modifiers. IsHonest-bind _ (λ _. insert_items-IsHonest id is) _ (IsHonest-statement _ _))
        _ (IsHonest-from_result _)

  create_found-IsHonest :
      (r : CreateOrderRecord) (found : Option CreateOrderResult)
      → IsHonest (create_found json r found)
  unfolding create_new
  create_found-IsHonest r none = search (honest_rules, insert_items-IsHonest) depth 14
  create_found-IsHonest r (some x) = search honest_rules

  create_body-IsHonest : (r : CreateOrderRecord) → IsHonest (create_body json r)
  unfolding create_body
  create_body-IsHonest r =
      search (honest_rules, find_by_key-IsHonest, create_found-IsHonest) depth 8

  save_event-IsHonest :
      (r : ApplyPartnerEventRecord) (o : Order × Result Error Bool) → IsHonest (save_event json r o)
  save_event-IsHonest r (o, err e) = search honest_rules
  save_event-IsHonest r (o, ok changed) = search honest_rules depth 12

  apply_found-IsHonest :
      (r : ApplyPartnerEventRecord) (found : Option InboxRow) → IsHonest (apply_found json r found)
  apply_found-IsHonest r none =
      search (honest_rules, load_order-IsHonest, save_event-IsHonest) depth 8
  apply_found-IsHonest r (some x) = search (honest_rules, load_order-IsHonest) depth 8

  apply_body-IsHonest : (r : ApplyPartnerEventRecord) → IsHonest (apply_body json r)
  unfolding apply_body
  apply_body-IsHonest r = search (honest_rules, apply_found-IsHonest) depth 8

  pub create_order_settles :
      (r : CreateOrderRecord) (plan : Plan) (t : OrderTables)
      → Settled database (create_body json r) (create_order json r plan t) t
  unfolding create_order
  create_order_settles r plan t =
      transaction-Settled database (create_body json r) plan t (create_body-IsHonest r)

  pub apply_partner_event_settles :
      (r : ApplyPartnerEventRecord) (plan : Plan) (t : OrderTables)
      → Settled database (apply_body json r) (apply_partner_event json r plan t) t
  unfolding apply_partner_event
  apply_partner_event_settles r plan t =
      transaction-Settled database (apply_body json r) plan t (apply_body-IsHonest r)
