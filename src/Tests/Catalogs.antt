-- ===== src/Tests/Catalogs.antt =====
-- The catalog on a menu with a pizza, and the order of what it validated.
use test_task_autumn.Prelude.{
  ◌≡◌, refl, true, false, [], ◌∷◌, map, nat_eq, string_eq, empty_map, insert, All, ok, err,
}
use test_task_autumn.Prelude.Words.{mul64, int64}
use test_task_autumn.Catalog.Domain.{
  menu_item_unavailable, MenuModifier, MenuItem, Menu, RequestedItem, ValidatedItem,
}
use test_task_autumn.Catalog.Memory.{
  Store, validate_order_items, validate_items, validate_item, add_modifiers, menu_index, index_menu,
  index_items, index_modifiers, is_closed,
}
use test_task_autumn.Catalog.Memory.Offers.{IsOffered, validate_order_items-IsOffered}
use test_task_autumn.Order.Status.{pending}
use test_task_autumn.Order.Domain.{
  NewOrderInput, Order, new_order, build_items, is_bad_item, line_total,
}
use test_task_autumn.Order.CatalogAdapter.{order_input, order_totals_agree}

abbrev cheese : MenuModifier
cheese = record { id = "cheese"; name = "Cheese"; price_delta_cents = 100; available = true }

abbrev pizza : MenuItem
pizza = record {
  id = "pizza";
  name = "Pizza";
  description = "";
  price_cents = 1200;
  available = true;
  modifiers = cheese ∷ [];
}

abbrev soup : MenuItem
soup = record pizza { id = "soup"; name = "Soup"; available = false; modifiers = [] }

abbrev menu : Menu
menu = record {
  restaurant_id = "rst-1";
  categories = record { id = "cat-1"; name = "Food"; items = pizza ∷ soup ∷ [] } ∷ [];
}

abbrev store : Store
store = record {
  restaurants = record { id = "rst-1"; name = "Roma"; cuisine = "Italian"; is_open = true } ∷ [];
  menus = insert empty_map "rst-1" menu;
}

abbrev two_pizzas : RequestedItem
two_pizzas = record { menu_item_id = "pizza"; quantity = 2; modifier_item_ids = "cheese" ∷ [] }

abbrev priced : ValidatedItem
priced = record {
  menu_item_id = "pizza";
  name = "Pizza";
  unit_price_cents = 1300;
  quantity = 2;
  modifier_item_ids = "cheese" ∷ [];
  line_total_cents = 2600;
}

two_pizzas_test : validate_order_items "rst-1" (two_pizzas ∷ []) store ≡ ok (priced ∷ [])
unfolding validate_order_items validate_items validate_item add_modifiers menu_index index_menu
    index_items index_modifiers is_closed mul64 int64
two_pizzas_test = refl

soup_test :
    validate_order_items "rst-1"
      (two_pizzas ∷ record two_pizzas { menu_item_id = "soup" } ∷ [])
      store
    ≡ err (menu_item_unavailable "soup")
unfolding validate_order_items validate_items validate_item add_modifiers menu_index index_menu
    index_items index_modifiers is_closed mul64 int64
soup_test = refl

abbrev input : NewOrderInput
input = record {
  order_id = "ord-1";
  user_id = "usr-1";
  restaurant_id = "rst-1";
  items = map order_input (priced ∷ []);
}

abbrev ordered : Order
ordered = record {
  id = "ord-1";
  user_id = "usr-1";
  restaurant_id = "rst-1";
  status = pending;
  items =
      record {
        menu_item_id = "pizza";
        name = "Pizza";
        unit_price_cents = 1300;
        quantity = 2;
        modifier_item_ids = "cheese" ∷ [];
        line_total_cents = 2600;
      }
      ∷ [];
  total_cents = 2600;
  version = 1;
}

ordered_test : new_order input ≡ ok ordered
unfolding new_order build_items is_bad_item line_total mul64 int64
ordered_test = refl

order_totals_agree_example :
    map (λ i. i.line_total_cents) ordered.items ≡ map (λ v. v.line_total_cents) (priced ∷ [])
order_totals_agree_example =
    order_totals_agree store "rst-1" (two_pizzas ∷ []) (priced ∷ []) input ordered two_pizzas_test
      refl ordered_test

validate_order_items-IsOffered_example : All (IsOffered menu) (priced ∷ [])
validate_order_items-IsOffered_example =
    validate_order_items-IsOffered store "rst-1" (two_pizzas ∷ []) (priced ∷ []) menu refl
      two_pizzas_test
