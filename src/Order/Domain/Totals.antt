-- ===== src/Order/Domain/Totals.antt =====
-- What `new_order` computes, and when it succeeds.
use test_task_autumn.Prelude.{
  ℕ, ◌+◌, ◌*◌, ◌%◌, ◌^◌, ◌<◌, ◌≡◌, refl, ◌≢◌, ◌↔◌, ◌⊎◌, inl, inr, true, false, List, [], ◌∷◌, ◌++◌,
  map, arith, eq_iff, nat_eq, string_eq, Bool-cases, length, All, is_empty-append_cons, ok, err,
}
use test_task_autumn.Prelude.Words.{
  is_positive32_bounds, is_positive64_bounds, add64, mul64, is_positive32, is_positive64,
  is_positive32_bounds, int64_of_positive,
}
use test_task_autumn.Order.Status.{pending}
use test_task_autumn.Order.Errors.{Error, invalid_order_item}
use test_task_autumn.Order.Domain.{
  NewOrderItemInput, NewOrderInput, Order, is_bad_item, line_total, order_item, build_items,
  new_order,
}

-- The exact sum of price times quantity, with no wrap-around.
abbrev pub exact_total : List NewOrderItemInput → ℕ
exact_total [] = 0
exact_total (item ∷ rest) = item.unit_price_cents * item.quantity + exact_total rest

abbrev pub AllGood : List NewOrderItemInput → Type 0
AllGood items = All (λ item. is_bad_item item ≡ false) items

good_quantity :
    (item : NewOrderItemInput) → is_bad_item item ≡ false → is_positive32 item.quantity ≡ true
unfolding is_bad_item
good_quantity item h = ground arith

good_price :
    (item : NewOrderItemInput)
    → is_bad_item item ≡ false
    → is_positive64 item.unit_price_cents ≡ true
unfolding is_bad_item
good_price item h = ground arith

-- A line total is the product modulo 2 ^ 64.
line_total_lem :
    (item : NewOrderItemInput)
    → is_bad_item item ≡ false
    → line_total item ≡ (item.unit_price_cents * item.quantity) % 2 ^ 64
unfolding line_total mul64
line_total_lem item h = rw (int64_of_positive item.quantity (good_quantity item h))

build_items_ok :
    (i total : ℕ) (items : List NewOrderItemInput)
    → total < 2 ^ 64
    → AllGood items
    → build_items i total items ≡ ok (map order_item items, (total + exact_total items) % 2 ^ 64)
unfolding build_items
build_items_ok i total [] lt g = ground arith
build_items_ok i total (item ∷ rest) lt g = ground (
  arith,
  line_total_lem item g.0,
  build_items_ok (i + 1) ((total + line_total item) % 2 ^ 64) rest (omega arith) g.1,
)

build_items_cases :
    (i total : ℕ) (items : List NewOrderItemInput)
    → AllGood items ⊎ ((e : Error) × (build_items i total items ≡ err e))
unfolding build_items
build_items_cases i total [] = inl tt
build_items_cases i total (item ∷ rest) =
    elim (build_items_cases (i + 1) (add64 total (line_total item)) rest) [
      | inl good ↦ elim (Bool-cases (is_bad_item item)) [
        | inl bad ↦ inr (invalid_order_item i, rw bad)
        | inr fine ↦ inl (fine, good)
      ]
      | inr (e, fails) ↦ elim (Bool-cases (is_bad_item item)) [
        | inl bad ↦ inr (invalid_order_item i, rw bad)
        | inr fine ↦ inr (e, rw (fine, fails))
      ]
    ]

build_items_bad :
    (i total : ℕ) (good : List NewOrderItemInput) (bad : NewOrderItemInput)
    (rest : List NewOrderItemInput)
    → AllGood good
    → is_bad_item bad ≡ true
    → build_items i total (good ++ bad ∷ rest) ≡ err (invalid_order_item (i + length good))
unfolding build_items
build_items_bad i total [] bad rest g b = ground arith
build_items_bad i total (item ∷ good) bad rest g b =
    ground (arith, build_items_bad (i + 1) (add64 total (line_total item)) good bad rest g.1 b)

exact_total_pos :
    (items : List NewOrderItemInput) → items ≢ [] → AllGood items → 0 < exact_total items
exact_total_pos [] h g = absurd (h refl)
exact_total_pos (item ∷ rest) h g = grind (
  arith,
  is_positive32_bounds item.quantity (good_quantity item g.0),
  is_positive64_bounds item.unit_price_cents (good_price item g.0),
)

-- What an accepted input looks like, and the order that is made of it.
pub record Snapshot (input : NewOrderInput) (o : Order) : Type 0 where
  pub order_id_given : input.order_id ≢ ""
  pub user_id_given : input.user_id ≢ ""
  pub restaurant_id_given : input.restaurant_id ≢ ""
  pub items_given : input.items ≢ []
  pub items_good : AllGood input.items
  pub id : o.id ≡ input.order_id
  pub user_id : o.user_id ≡ input.user_id
  pub restaurant_id : o.restaurant_id ≡ input.restaurant_id
  pub status : o.status ≡ pending
  pub version : o.version ≡ 1
  pub items : o.items ≡ map order_item input.items
  pub total_cents : o.total_cents ≡ exact_total input.items % 2 ^ 64

-- `NewOrder` succeeds exactly where the three ids and at least one item are given and every item is
-- good. The order then is the pending snapshot of the input, at version 1, and its total is the
-- sum of price times quantity modulo 2 ^ 64.
pub new_order-Snapshot :
    (input : NewOrderInput) (o : Order) → (new_order input ≡ ok o) ↔ Snapshot input o
unfolding new_order
new_order-Snapshot input o = (
  λ h. ground (
    arith,
    eq_iff input.order_id "",
    eq_iff input.user_id "",
    eq_iff input.restaurant_id "",
    build_items_cases 0 0 input.items,
    build_items_ok 0 0 input.items,
  ),
  λ s. ground (
    arith,
    eq_iff input.order_id "",
    eq_iff input.user_id "",
    eq_iff input.restaurant_id "",
    build_items_ok 0 0 input.items,
  ),
)

-- Where the exact sum of price times quantity fits an int64, the total of a new order is that sum.
pub new_order_total :
    (input : NewOrderInput) (o : Order)
    → new_order input ≡ ok o
    → exact_total input.items < 2 ^ 63
    → (o.total_cents ≡ exact_total input.items) × (is_positive64 o.total_cents ≡ true)
new_order_total input o h fits =
    let s = (new_order-Snapshot input o).0 h in
    ground (arith, exact_total_pos input.items s.items_given s.items_good)

-- With the ids given, the first bad item decides the error, which carries its index.
pub new_order_first_bad :
    (input : NewOrderInput) (good rest : List NewOrderItemInput) (bad : NewOrderItemInput)
    → input.order_id ≢ ""
    → input.user_id ≢ ""
    → input.restaurant_id ≢ ""
    → input.items ≡ good ++ bad ∷ rest
    → AllGood good
    → is_bad_item bad ≡ true
    → new_order input ≡ err (invalid_order_item (length good))
unfolding new_order
new_order_first_bad input good rest bad a b c e g h = ground (
  arith,
  eq_iff input.order_id "",
  eq_iff input.user_id "",
  eq_iff input.restaurant_id "",
  build_items_bad 0 0 good bad rest g h,
  is_empty-append_cons good bad rest,
)
