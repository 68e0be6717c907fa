-- ===== src/Order/Domain.antt =====
-- internal/order/domain/order.go. Prices are int64 and quantities int32 bit patterns.
pub mod Totals
pub mod Lifecycle
use test_task_autumn.Prelude.{
  ℕ, zero, suc, ◌+◌, ◌-◌, ◌*◌, ◌/◌, ◌%◌, ◌^◌, ◌≤◌, ◌<◌, String, ◌<>◌, ◌≡◌, refl, sym, ap, ◌∙◌, ◌≢◌,
  ◌↔◌, ◌⊎◌, inl, inr, Bool, true, false, not, ◌&&◌, ◌||◌, Option, none, some, List, [], ◌∷◌, ◌++◌,
  map, arith, eq_iff, eq_refl, ltb, leb, if◌then◌else◌, Eq, ◌==◌, ◌!=◌, nat_eq, string_eq,
  Bool-cases, Option-cases, Map, empty_map, insert, length, is_empty, take, keep_if, All,
  length-append, is_empty-append_cons, length-take-le, contains, Result, ok, err, ◌>>=◌, >>=-eq-ok,
  Result-cases, ◌>>◌, fail_if,
}
use test_task_autumn.Prelude.Words.{add64, mul64, int64, is_positive32, is_positive64}
use test_task_autumn.Order.Status.{Status, pending, can_transition}
use test_task_autumn.Order.Errors.{
  Error, empty_order, invalid_order, invalid_order_item, invalid_status_transition,
}

pub record NewOrderItemInput : Type 0 where
  pub menu_item_id : String
  pub name : String
  pub unit_price_cents : ℕ
  pub quantity : ℕ
  pub modifier_item_ids : List String

pub record NewOrderInput : Type 0 where
  pub order_id : String
  pub user_id : String
  pub restaurant_id : String
  pub items : List NewOrderItemInput

pub record OrderItem : Type 0 where
  pub menu_item_id : String
  pub name : String
  pub unit_price_cents : ℕ
  pub quantity : ℕ
  pub modifier_item_ids : List String
  pub line_total_cents : ℕ

pub record Order : Type 0 where
  pub id : String
  pub user_id : String
  pub restaurant_id : String
  pub status : Status
  pub items : List OrderItem
  pub total_cents : ℕ
  pub version : ℕ

-- the guard of the loop of `NewOrder`
unfoldable pub is_bad_item : NewOrderItemInput → Bool
is_bad_item item =
    item.menu_item_id == ""
    || item.name == ""
    || not (is_positive32 item.quantity)
    || not (is_positive64 item.unit_price_cents)

unfoldable pub line_total : NewOrderItemInput → ℕ
line_total item = mul64 item.unit_price_cents (int64 item.quantity)

abbrev pub order_item : NewOrderItemInput → OrderItem
order_item item = record {
  menu_item_id = item.menu_item_id;
  name = item.name;
  unit_price_cents = item.unit_price_cents;
  quantity = item.quantity;
  modifier_item_ids = item.modifier_item_ids;
  line_total_cents = line_total item;
}

-- the loop of `NewOrder` from index `i` and running total `total`
unfoldable pub build_items : ℕ → ℕ → List NewOrderItemInput → Result Error (List OrderItem × ℕ)
build_items i total [] = ok ([], total)
build_items i total (item ∷ rest) = do
  fail_if (is_bad_item item) (invalid_order_item i)
  (items, sum) ← build_items (i + 1) (add64 total (line_total item)) rest
  ok (order_item item ∷ items, sum)

unfoldable pub new_order : NewOrderInput → Result Error Order
new_order input = do
  fail_if (input.order_id == "" || input.user_id == "" || input.restaurant_id == "") invalid_order
  fail_if (is_empty input.items) empty_order
  (items, total) ← build_items 0 0 input.items
  ok (record {
    id = input.order_id;
    user_id = input.user_id;
    restaurant_id = input.restaurant_id;
    status = pending;
    items = items;
    total_cents = total;
    version = 1;
  })

-- The receiver after the call, and the results.
unfoldable pub transition_to : Order → Status → Order × Result Error Bool
transition_to o next =
    if o.status == next
    then (o, ok false)
    else if not (can_transition o.status next)
    then (o, err (invalid_status_transition o.status next))
    else (record o { status = next; version = add64 o.version 1 }, ok true)
