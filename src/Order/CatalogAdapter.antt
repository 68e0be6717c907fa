-- ===== src/Order/CatalogAdapter.antt =====
-- internal/order/adapters/catalogmemory/adapter.go: the catalog port of the order service over a
-- catalog store. The totals of the catalog are dropped here, and computed again by `NewOrder`.
use test_task_autumn.Prelude.{
  ℕ, ◌+◌, String, ◌≡◌, refl, ap, ◌∙◌, inl, inr, List, [], ◌∷◌, map, arith, nat_eq, string_eq,
  Bool-cases, Option-cases, All, Result, ok, err, >>=-eq-ok,
}
use test_task_autumn.Prelude.Words.{mul64, int64}
use test_task_autumn.Catalog.Domain as Catalog
use test_task_autumn.Catalog.Domain.{CatalogError, ValidatedItem, MenuItem}
use test_task_autumn.Catalog.Memory as Memory
use mathlib.Core.Path.{subst}
use test_task_autumn.Catalog.Memory.{
  Store, is_closed, menu_index, Index, validate_item, validate_items, validated_item,
}
use test_task_autumn.Order.Errors.{Error, catalog}
use test_task_autumn.Order.Domain.{
  NewOrderItemInput, NewOrderInput, Order, order_item, line_total, new_order,
}
use test_task_autumn.Order.Domain.Totals.{new_order-Snapshot}
use test_task_autumn.Order.Service.Ports.{RequestedItem}

abbrev pub requested_item : RequestedItem → Catalog.RequestedItem
requested_item r = record {
  menu_item_id = r.menu_item_id;
  quantity = r.quantity;
  modifier_item_ids = r.modifier_item_ids;
}

abbrev pub order_input : ValidatedItem → NewOrderItemInput
order_input v = record {
  menu_item_id = v.menu_item_id;
  name = v.name;
  unit_price_cents = v.unit_price_cents;
  quantity = v.quantity;
  modifier_item_ids = v.modifier_item_ids;
}

abbrev adapted : Result CatalogError (List ValidatedItem) → Result Error (List NewOrderItemInput)
adapted (err e) = err (catalog e)
adapted (ok vs) = ok (map order_input vs)

-- `ValidateOrderItems`
unfoldable pub validate_order_items :
    Store → String → List RequestedItem → Result Error (List NewOrderItemInput)
validate_order_items s restaurant_id items =
    adapted (Memory.validate_order_items restaurant_id (map requested_item items) s)

-- The line totals that `NewOrder` computes are those of the catalog.
abbrev IsPriced : ValidatedItem → Type 0
IsPriced v = v.line_total_cents ≡ mul64 v.unit_price_cents (int64 v.quantity)

validate_item-IsPriced :
    (x : Index) (i : ℕ) (r : Catalog.RequestedItem) (v : ValidatedItem)
    → validate_item x i r ≡ ok v
    → IsPriced v
unfolding validate_item
validate_item-IsPriced x i r v h = ground arith

validate_items-IsPriced :
    (x : Index) (i : ℕ) (rs : List Catalog.RequestedItem) (vs : List ValidatedItem)
    → validate_items x i rs ≡ ok vs
    → All IsPriced vs
unfolding validate_items
validate_items-IsPriced x i [] vs h = let e : [] ≡ vs = cc h in subst (All IsPriced) e tt
validate_items-IsPriced x i (r ∷ rs) vs h =
    let (v, first, more) = >>=-eq-ok (validate_item x i r) _ h in
    let (rest, others, done) = >>=-eq-ok (validate_items x (i + 1) rs) _ more in
    let e : v ∷ rest ≡ vs = cc done in
    subst (All IsPriced) e
      (validate_item-IsPriced x i r v first, validate_items-IsPriced x (i + 1) rs rest others)

line_totals :
    (vs : List ValidatedItem)
    → All IsPriced vs
    → map (λ i. i.line_total_cents) (map order_item (map order_input vs))
      ≡ map (λ v. v.line_total_cents) vs
unfolding line_total
line_totals [] priced = refl
line_totals (v ∷ vs) (here, there) = rw (here, line_totals vs there)

validate_order_items-IsPriced :
    (s : Store) (restaurant_id : String) (requested : List Catalog.RequestedItem)
    (vs : List ValidatedItem)
    → Memory.validate_order_items restaurant_id requested s ≡ ok vs
    → All IsPriced vs
unfolding Memory.validate_order_items
validate_order_items-IsPriced s restaurant_id [] vs valid = absurd (cc valid)
validate_order_items-IsPriced s restaurant_id (r ∷ rs) vs valid =
    elim (Option-cases (s.menus restaurant_id)) [
      | inl e ↦ absurd (ground arith)
      | inr (menu, e) ↦ elim (Bool-cases (is_closed restaurant_id s.restaurants)) [
        | inl closed ↦ absurd (ground arith)
        | inr open_ ↦ validate_items-IsPriced (menu_index menu) 0 (r ∷ rs) vs (ground arith)
      ]
    ]

-- An order that is made of what the catalog validated, under whatever ids, has the line totals that the
-- catalog computed, which the port does not pass on.
pub order_totals_agree :
    (s : Store) (restaurant_id : String) (requested : List Catalog.RequestedItem)
    (vs : List ValidatedItem) (input : NewOrderInput) (o : Order)
    → Memory.validate_order_items restaurant_id requested s ≡ ok vs
    → input.items ≡ map order_input vs
    → new_order input ≡ ok o
    → map (λ i. i.line_total_cents) o.items ≡ map (λ v. v.line_total_cents) vs
order_totals_agree s restaurant_id requested vs input o valid items made =
    let snapshot = (new_order-Snapshot input o).0 made in
    ap (map (λ i. i.line_total_cents)) (snapshot.items ∙ ap (map order_item) items)
    ∙ line_totals vs (validate_order_items-IsPriced s restaurant_id requested vs valid)
