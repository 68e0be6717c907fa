-- ===== src/Order/Postgres/Modifiers.antt =====
-- Items with no modifiers: `insertOrderItems` encodes their nil slice as `null`, which the check
-- `jsonb_typeof(modifier_item_ids) = 'array'` of migrations/order refuses.
use test_task_autumn.Prelude.{
  String, ◌≡◌, refl, ap, ◌∙◌, inl, inr, false, none, some, List, [], ◌∷◌, ◌++◌, arith, nat_eq,
  string_eq, Option-cases, Result, err,
}
use test_task_autumn.Database.{Plan, Tx, pure, throw, statement, transaction, ◌>>=◌}
use test_task_autumn.Order.Errors.{Error, database, encoding}
use test_task_autumn.Order.Domain.{OrderItem}
use test_task_autumn.Order.Service.Ports.{CreateOrderRecord}
use test_task_autumn.Order.Memory.{record_key}
use test_task_autumn.Order.Postgres.Tables.{OrderTables, insert_order_row, insert_item_row}
use test_task_autumn.Order.Postgres.Rows.{Json, order_row, item_row, slice}
use test_task_autumn.Order.Postgres.Faults.{create_order_settles}
use test_task_autumn.Order.Postgres.{
  find_by_key, insert_items, create_new, create_body, create_order,
}

abbrev IsRefused : {A : Type 0} → Result Error A × Plan × OrderTables → Type 0
IsRefused o = (e : Error) × (t : OrderTables) × (o ≡ (err e, [], t))

rolled_back :
    {A : Type 0} (body : Tx Error OrderTables A) (e : Error) (t t' : OrderTables)
    → body [] t ≡ (err e, [], t')
    → transaction database body [] t ≡ (err e, [], t)
unfolding transaction
rolled_back body e t t' run = rw run refl

module _ (json : Json) (nil_is_null : json.marshal none ≡ some "null")
    (null_is_no_array : json.is_array "null" ≡ false) where
  insert_items-IsRefused :
      (id : String) (before after : List OrderItem) (i : OrderItem) (t : OrderTables)
      → i.modifier_item_ids ≡ []
      → IsRefused (insert_items json id (before ++ i ∷ after) [] t)
  unfolding insert_items ◌>>=◌ pure throw statement
  insert_items-IsRefused id [] after i t bare = elim (Option-cases (t.orders id)) [
    | inl gone ↦ rw (bare, nil_is_null, gone) (database, t, refl)
    | inr (row, there) ↦ rw (bare, nil_is_null, there, null_is_no_array) (database, t, ground arith)
  ]
  insert_items-IsRefused id (b ∷ before) after i t bare =
      elim (Option-cases (json.marshal (slice b.modifier_item_ids))) [
        | inl unfit ↦ rw unfit (encoding, t, refl)
        | inr (text, made) ↦
            elim (Option-cases (insert_item_row json.is_array (item_row id b text) t)) [
              | inl refused ↦ rw (made, refused) (database, t, refl)
              | inr (t', added) ↦
                  rw (made, added) (insert_items-IsRefused id before after i t' bare)
            ]
      ]

  create_body-IsRefused :
      (r : CreateOrderRecord) (before after : List OrderItem) (i : OrderItem) (t : OrderTables)
      → r.order.items ≡ before ++ i ∷ after
      → i.modifier_item_ids ≡ []
      → t.idempotency (record_key r) ≡ none
      → IsRefused (create_body json r [] t)
  unfolding create_body create_new find_by_key ◌>>=◌ pure throw statement
  create_body-IsRefused r before after i t items bare new =
      elim (Option-cases (insert_order_row r.order.id (order_row r.order) t)) [
        | inl refused ↦ rw (new, refused) (database, t, refl)
        | inr (t', added) ↦
            let (e, t'', run) = insert_items-IsRefused r.order.id before after i t' bare in
            rw (new, added, items, run) (e, t'', refl)
      ]

  -- Where the encoder writes the nil slice as `null`, and `null` is no array: under a new key, an order
  -- with an item that has no modifiers is refused with an error, whatever else it holds and whatever
  -- faults come, and the tables stay as they are.
  pub create_order_refuses_bare :
      (r : CreateOrderRecord) (before after : List OrderItem) (i : OrderItem) (plan : Plan)
      (t : OrderTables)
      → r.order.items ≡ before ++ i ∷ after
      → i.modifier_item_ids ≡ []
      → t.idempotency (record_key r) ≡ none
      → ((e : Error) × ((create_order json r plan t).0 ≡ err e))
        × ((create_order json r plan t).2 ≡ t)
  unfolding create_order
  create_order_refuses_bare r before after i plan t items bare new =
      let (e, t', run) = create_body-IsRefused r before after i t items bare new in
      let clean : transaction database (create_body json r) [] t ≡ (err e, [], t) =
        rolled_back (create_body json r) e t t' run in
      elim (create_order_settles json r plan t) [
        | inl (kept, failed) ↦ (failed, kept)
        | inr (same, inl result) ↦ ((e, result ∙ ap (λ o. o.0) clean), same ∙ ap (λ o. o.2) clean)
        | inr (same, inr down) ↦ ((database, down), same ∙ ap (λ o. o.2) clean)
      ]
