-- ===== src/Catalog/Postgres/Described.antt =====
-- The menu that the tables describe.
use test_task_autumn.Prelude.{String, List, [], ◌∷◌, ◌++◌, map, ◌==◌, nat_eq, string_eq, keep_if}
use test_task_autumn.Catalog.Domain.{MenuItem, MenuCategory, Menu}
use test_task_autumn.Catalog.Postgres.Tables.{
  CatalogTables, CategoryRow, MenuItemRow, shown_item, modifiers_of, items_of,
}
use test_task_autumn.Catalog.Postgres.{menu_item, menu_modifier}

module _ (t : CatalogTables) where
  -- The menu that the tables describe.
  abbrev pub item_of : MenuItemRow → MenuItem
  item_of i = record (menu_item (shown_item t i)) {
    modifiers = map menu_modifier (modifiers_of t i);
  }

  abbrev pub category_of : CategoryRow → MenuCategory
  category_of c = record { id = c.id; name = c.name; items = map item_of (items_of t c) }

  abbrev pub categories_of : String → List CategoryRow
  categories_of restaurant_id = keep_if (λ c. c.restaurant_id == restaurant_id) t.categories

  abbrev pub described_menu : String → Menu
  described_menu restaurant_id = record {
    restaurant_id = restaurant_id;
    categories = map category_of (categories_of restaurant_id);
  }

  -- the items of these categories
  unfoldable pub items_in : List CategoryRow → List MenuItemRow
  items_in [] = []
  items_in (c ∷ cs) = items_of t c ++ items_in cs
