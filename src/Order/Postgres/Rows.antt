-- ===== src/Order/Postgres/Rows.antt =====
-- internal/order/postgres/store.go: the rows of an order, written and read back.
use test_task_autumn.Prelude.{
  ℕ, ◌%◌, ◌^◌, String, Bool, Option, none, some, List, [], ◌∷◌, if◌then◌else◌, ◌==◌, nat_eq,
  string_eq, Result, ok, err, ◌>>=◌,
}
use test_task_autumn.Prelude.Words.{int64}
use test_task_autumn.Order.Errors.{Error, encoding}
use test_task_autumn.Order.Domain.{Order, OrderItem}
use test_task_autumn.Order.Postgres.Tables.{OrderRow, ItemRow}

-- `encoding/json` and jsonb: the encoder of a slice of ids, where the nil slice is `none`, the decoder
-- of what the column gives back, and the test for an array.
pub record Json : Type 0 where
  pub marshal : Option (List String) → Option String
  pub unmarshal : String → Option (List String)
  pub is_array : String → Bool

-- An order's slice of ids is made by appending to nil, so that an empty one is nil.
abbrev pub slice : List String → Option (List String)
slice [] = none
slice (id ∷ ids) = some (id ∷ ids)

-- `int32(quantity)` of an int64
abbrev pub int32 : ℕ → ℕ
int32 q = q % 2 ^ 32

abbrev pub order_row : Order → OrderRow
order_row o = record {
  user_id = o.user_id;
  restaurant_id = o.restaurant_id;
  status = o.status;
  total_cents = o.total_cents;
  version = o.version;
}

abbrev pub item_row : String → OrderItem → String → ItemRow
item_row order_id i modifiers = record {
  order_id = order_id;
  menu_item_id = i.menu_item_id;
  name = i.name;
  unit_price_cents = i.unit_price_cents;
  quantity = int64 i.quantity;
  modifier_item_ids = modifiers;
  line_total_cents = i.line_total_cents;
}

-- `WHERE order_id = $1 ORDER BY id`
unfoldable pub rows_of : String → List ItemRow → List ItemRow
rows_of order_id [] = []
rows_of order_id (r ∷ rs) =
    let rest = rows_of order_id rs in if r.order_id == order_id then r ∷ rest else rest

abbrev pub or_fail : {A : Type 0} → Option A → Error → Result Error A
or_fail none e = err e
or_fail (some a) e = ok a

module _ (json : Json) where
  -- one round of the loop of `loadOrderItems`
  abbrev pub read_item : ItemRow → Result Error OrderItem
  read_item r = elim (json.unmarshal r.modifier_item_ids) [
    | none ↦ err encoding
    | some ids ↦ ok (record {
      menu_item_id = r.menu_item_id;
      name = r.name;
      unit_price_cents = r.unit_price_cents;
      quantity = int32 r.quantity;
      modifier_item_ids = ids;
      line_total_cents = r.line_total_cents;
    })
  ]

  unfoldable pub read_items : List ItemRow → Result Error (List OrderItem)
  read_items [] = ok []
  read_items (r ∷ rs) = do i ← read_item r; is ← read_items rs; ok (i ∷ is)

abbrev pub read_order : String → OrderRow → List OrderItem → Order
read_order id row items = record {
  id = id;
  user_id = row.user_id;
  restaurant_id = row.restaurant_id;
  status = row.status;
  items = items;
  total_cents = row.total_cents;
  version = row.version;
}
