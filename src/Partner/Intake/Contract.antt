-- ===== src/Partner/Intake/Contract.antt =====
-- The contract between the services: what order-service puts into order.created.v1 is what
-- partner-service takes out of it.
use test_task_autumn.Prelude.{
  ℕ, ◌+◌, ◌≡◌, refl, ap, ◌∙◌, ◌≢◌, ◌↔◌, true, false, List, [], ◌∷◌, map, arith, eq_iff, eq_refl,
  nat_eq, string_eq, is_empty, ok,
}
use test_task_autumn.Prelude.Words.{add64, is_positive64}
use test_task_autumn.Events.Contracts.{pending_status}
use test_task_autumn.Order.Domain.{
  NewOrderItemInput, NewOrderInput, Order, OrderItem, line_total, order_item, build_items,
  new_order,
}
use test_task_autumn.Order.Domain
use test_task_autumn.Order.Domain.Totals.{AllGood, new_order-Snapshot}
use test_task_autumn.Order.Service.{order_created, order_created_item}
use test_task_autumn.Partner.Intake.{is_bad_item, sum_items, validate_payload}

snapshot_item_good :
    (item : NewOrderItemInput)
    → Domain.is_bad_item item ≡ false
    → is_bad_item (order_created_item (order_item item)) ≡ false
unfolding is_bad_item Domain.is_bad_item line_total
snapshot_item_good item h = ground (arith, eq_iff item.menu_item_id "", eq_iff item.name "")

-- The running totals of the two services go together.
sums_agree :
    (i total : ℕ) (items : List NewOrderItemInput)
    → AllGood items
    → (sum : ℕ) × (build_items i total items ≡ ok (map order_item items, sum))
      × (sum_items total (map order_created_item (map order_item items)) ≡ ok sum)
unfolding build_items sum_items
sums_agree i total [] g = (total, refl, refl)
sums_agree i total (item ∷ rest) g =
    let (sum, built, summed) = sums_agree (i + 1) (add64 total (line_total item)) rest g.1 in
    (sum, rw (g.0, built), rw (snapshot_item_good item g.0) summed)

is_empty-map {ℓ κ} :
    {A : Type ℓ} {B : Type κ} (f : A → B) (xs : List A) → is_empty (map f xs) ≡ is_empty xs
is_empty-map f [] = refl
is_empty-map f (x ∷ xs) = refl

total_of_sum :
    (input : NewOrderInput) (o : Order) (items : List OrderItem) (sum : ℕ)
    → new_order input ≡ ok o
    → build_items 0 0 input.items ≡ ok (items, sum)
    → (o.items ≡ items) × (o.total_cents ≡ sum)
unfolding new_order
total_of_sum input o items sum h built = ground arith

not_empty : (items : List NewOrderItemInput) → items ≢ [] → is_empty items ≡ false
not_empty [] h = absurd (h refl)
not_empty (x ∷ xs) h = refl

-- The event of a new order passes the validation of partner-service under the order's id as
-- partition key, exactly if its total is a positive int64.
pub new_order_accepted :
    (input : NewOrderInput) (o : Order)
    → new_order input ≡ ok o
    → (validate_payload (order_created o) o.id ≡ ok tt) ↔ (is_positive64 o.total_cents ≡ true)
unfolding validate_payload
new_order_accepted input o h =
    let s = (new_order-Snapshot input o).0 h in
    let (sum, built, summed) = sums_agree 0 0 input.items s.items_good in
    let (items, total) = total_of_sum input o (map order_item input.items) sum h built in
    let agreed : sum_items 0 (map order_created_item o.items) ≡ ok o.total_cents =
      rw (items, total) summed in
    let some_item : is_empty (map order_created_item o.items) ≡ false =
      is_empty-map order_created_item o.items
      ∙ ap is_empty items
      ∙ is_empty-map order_item input.items
      ∙ not_empty input.items s.items_given in
    (
      λ passes. ground arith,
      λ positive. ground (
        arith,
        s.status,
        s.id,
        s.user_id,
        s.restaurant_id,
        eq_iff o.status pending_status,
        eq_iff o.id "",
        eq_iff o.user_id "",
        eq_iff o.restaurant_id "",
        eq_refl o.id,
        s.order_id_given,
        s.user_id_given,
        s.restaurant_id_given,
      ),
    )
