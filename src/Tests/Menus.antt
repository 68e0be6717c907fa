-- ===== src/Tests/Menus.antt =====
-- The tables of the catalog with a pizza and a soup, which is on the stop list.
use test_task_autumn.Prelude.{
  ◌≡◌, refl, ap, ◌⊎◌, true, not, some, [], ◌∷◌, nat_eq, string_eq, empty_map, insert, ok, err,
}
use test_task_autumn.Prelude.Distinct.{AreDistinct}
use test_task_autumn.Prelude.Words.{mul64, int64}
use test_task_autumn.Database.{fine, fails, pure, throw, statement, ◌>>=◌}
use test_task_autumn.Catalog.Domain.{menu_item_unavailable, RequestedItem}
use test_task_autumn.Catalog.Memory as Memory
use test_task_autumn.Catalog.Memory.{Store, is_closed}
use test_task_autumn.Catalog.Postgres.Tables.{
  CatalogTables, MenuItemRow, ModifierRow, open_flag, menu_rows, is_stopped,
}
use test_task_autumn.Catalog.Postgres.Described.{described_menu, items_in}
use test_task_autumn.Catalog.Postgres.Agrees.{Describes, validate_order_items_agree}
use test_task_autumn.Catalog.Postgres.{StoreError, catalog, get_menu, raised, validate_order_items}

run_program : Unit {0}
unfolding validate_order_items get_menu open_flag menu_rows is_stopped pure throw statement ◌>>=◌
    mul64 int64
run_program = tt

abbrev pizza : MenuItemRow
pizza = record {
  id = "pizza";
  restaurant_id = "rst-1";
  category_id = "cat-1";
  name = "Pizza";
  description = "";
  price_cents = 1200;
  available = true;
}

abbrev soup : MenuItemRow
soup = record pizza { id = "soup"; category_id = "cat-2"; name = "Soup"; price_cents = 400 }

abbrev cheese : ModifierRow
cheese = record {
  id = "cheese";
  menu_item_id = "pizza";
  name = "Cheese";
  price_delta_cents = 100;
  available = true;
}

abbrev tables : CatalogTables
tables = record {
  restaurants = record { id = "rst-1"; name = "Roma"; cuisine = "Italian"; is_open = true } ∷ [];
  categories =
      record { id = "cat-1"; restaurant_id = "rst-1"; name = "Pizza" }
      ∷ record { id = "cat-2"; restaurant_id = "rst-1"; name = "Soups" }
      ∷ record { id = "cat-3"; restaurant_id = "rst-1"; name = "Drinks" }
      ∷ [];
  items = pizza ∷ soup ∷ [];
  modifiers = cheese ∷ record cheese { id = "olives"; name = "Olives" } ∷ [];
  stops =
      record { restaurant_id = "rst-1"; menu_item_id = "soup"; starts_at = 10; ends_at = some 30 }
      ∷ [];
  now = 20;
}

abbrev store : Store
store = record {
  restaurants = tables.restaurants;
  menus = insert empty_map "rst-1" (described_menu tables "rst-1");
}

abbrev two_pizzas : RequestedItem
two_pizzas = record {
  menu_item_id = "pizza";
  quantity = 2;
  modifier_item_ids = "olives" ∷ "cheese" ∷ [];
}

two_pizzas_test :
    (validate_order_items "rst-1" (two_pizzas ∷ []) [] tables).0
    ≡ ok (
        record {
          menu_item_id = "pizza";
          name = "Pizza";
          unit_price_cents = 1400;
          quantity = 2;
          modifier_item_ids = "olives" ∷ "cheese" ∷ [];
          line_total_cents = 2800;
        }
        ∷ [])
unfolding run_program
two_pizzas_test = refl

soup_test :
    (validate_order_items "rst-1" (record two_pizzas { menu_item_id = "soup" } ∷ []) [] tables).0
    ≡ err (catalog (menu_item_unavailable "soup"))
unfolding run_program
soup_test = refl

store-Describes : Describes "rst-1" tables store
unfolding open_flag items_in AreDistinct is_closed
store-Describes = record {
  categories = ((refl, (refl, tt)), ((refl, tt), (tt, tt)));
  items = ((refl, tt), (tt, tt));
  menu = refl;
  is_open = λ flag h.
      let same : some true ≡ some flag = h in let yes_ : true ≡ flag = cc same in ap not yes_;
}

validate_order_items_agree_example :
    (validate_order_items "rst-1" (two_pizzas ∷ []) [] tables
      ≡ (raised (Memory.validate_order_items "rst-1" (two_pizzas ∷ []) store), [], tables))
    × (((e : StoreError) × ((validate_order_items "rst-1"
              (two_pizzas ∷ [])
              (fine ∷ fails ∷ [])
              tables).0
            ≡ err e))
        ⊎ ((validate_order_items "rst-1" (two_pizzas ∷ []) (fine ∷ fails ∷ []) tables).0
            ≡ raised (Memory.validate_order_items "rst-1" (two_pizzas ∷ []) store)))
validate_order_items_agree_example =
    validate_order_items_agree "rst-1" (two_pizzas ∷ []) (fine ∷ fails ∷ []) tables store
      store-Describes
