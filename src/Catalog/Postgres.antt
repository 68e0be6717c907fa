-- ===== src/Catalog/Postgres.antt =====
-- internal/catalog/postgres/store.go. The queries run one by one, with no transaction, and none writes.
pub mod Tables
pub mod Items
pub mod Agrees
pub mod Described
pub mod ItemRows
pub mod CategoryRows
pub mod Menus
use test_task_autumn.Prelude.{
  ℕ, zero, suc, ◌+◌, ◌-◌, ◌*◌, ◌/◌, ◌%◌, ◌^◌, ◌≤◌, ◌<◌, String, ◌<>◌, ◌≡◌, refl, sym, ap, ◌∙◌, ◌≢◌,
  ◌↔◌, ◌⊎◌, inl, inr, Bool, true, false, not, ◌&&◌, ◌||◌, Option, none, some, List, [], ◌∷◌, ◌++◌,
  map, arith, eq_iff, eq_refl, ltb, leb, if◌then◌else◌, Eq, ◌==◌, ◌!=◌, nat_eq, string_eq,
  Bool-cases, Option-cases, Map, empty_map, insert, length, is_empty, take, keep_if, All,
  length-append, is_empty-append_cons, length-take-le, contains, Result, ok, err, >>=-eq-ok,
  Result-cases, fail_if,
}
use test_task_autumn.Prelude.Words.{add64, is_positive32}
use test_task_autumn.Database.{Tx, pure, throw, query, from_result, ◌>>=◌, ◌>>◌}
use test_task_autumn.Catalog.Domain.{
  CatalogError, restaurant_not_found, restaurant_closed, invalid_menu_request, invalid_menu_item,
  menu_item_not_found, menu_item_unavailable, menu_modifier_not_found, Restaurant, MenuModifier,
  MenuItem, MenuCategory, Menu, RequestedItem, ValidatedItem,
}
use test_task_autumn.Catalog.Memory.{index_modifiers, validated_item}
use test_task_autumn.Catalog.Postgres.Tables.{
  CatalogTables, MenuItemRow, ModifierRow, MenuRow, open_flag, menu_rows,
}

pub data StoreError : Type 0 where
  catalog : CatalogError → StoreError
  database : StoreError

-- `ListRestaurants`
abbrev pub list_restaurants : Tx StoreError CatalogTables (List Restaurant)
list_restaurants = query database (λ t. t.restaurants)

-- The menu so far, and where its categories and its items are.
pub record Building : Type 0 where
  pub categories : List MenuCategory
  pub category_indexes : Map String ℕ
  pub item_indexes : Map String (ℕ × ℕ)

-- `xs[i] = f(xs[i])`, for an index that is there
unfoldable pub change_at : {A : Type 0} → ℕ → (A → A) → List A → List A
change_at i f [] = []
change_at zero f (x ∷ xs) = f x ∷ xs
change_at (suc i) f (x ∷ xs) = x ∷ change_at i f xs

abbrev pub change_items :
    ℕ → (List MenuItem → List MenuItem) → List MenuCategory → List MenuCategory
change_items at f categories = change_at at (λ c. record c { items = f c.items }) categories

abbrev pub items_at : ℕ → List MenuCategory → List MenuItem
items_at i [] = []
items_at zero (c ∷ cs) = c.items
items_at (suc i) (c ∷ cs) = items_at i cs

-- The category of a row: its index, and the menu with it.
unfoldable pub with_category : MenuRow → Building → ℕ × Building
with_category r b = elim (b.category_indexes r.category.id) [
  | some at ↦ (at, b)
  | none ↦ (
    length b.categories,
    record b {
      categories =
          b.categories ++ record { id = r.category.id; name = r.category.name; items = [] } ∷ [];
      category_indexes = insert b.category_indexes r.category.id (length b.categories);
    },
  )
]

abbrev pub menu_item : MenuItemRow → MenuItem
menu_item i = record {
  id = i.id;
  name = i.name;
  description = i.description;
  price_cents = i.price_cents;
  available = i.available;
  modifiers = [];
}

abbrev pub menu_modifier : ModifierRow → MenuModifier
menu_modifier m = record {
  id = m.id;
  name = m.name;
  price_delta_cents = m.price_delta_cents;
  available = m.available;
}

-- The item of a row whose category is at `at`: where it is, and the menu with it.
unfoldable pub with_item : MenuItemRow → ℕ → Building → (ℕ × ℕ) × Building
unfolding change_at
with_item i at b = elim (b.item_indexes i.id) [
  | some location ↦ (location, b)
  | none ↦
      let location : ℕ × ℕ = (at, length (items_at at b.categories)) in
      (
        location,
        record b {
          categories = change_items at (λ items. items ++ menu_item i ∷ []) b.categories;
          item_indexes = insert b.item_indexes i.id location;
        },
      )
]

abbrev pub with_modifier : Option ModifierRow → (ℕ × ℕ) × Building → Building
with_modifier none (location, b) = b
with_modifier (some m) ((at, position), b) = record b {
  categories =
      change_items at
        (change_at position
          (λ item. record item { modifiers = item.modifiers ++ menu_modifier m ∷ [] }))
        b.categories;
}

abbrev pub with_columns : Option MenuItemRow → Option ModifierRow → ℕ × Building → Building
with_columns none modifier (at, b) = b
with_columns (some i) modifier (at, b) = with_modifier modifier (with_item i at b)

-- one round of the loop of `GetMenu`
abbrev pub add_row : MenuRow → Building → Building
add_row r b = with_columns r.item r.modifier (with_category r b)

unfoldable pub add_rows : List MenuRow → Building → Building
unfolding with_category with_item
add_rows [] b = b
add_rows (r ∷ rs) b = add_rows rs (add_row r b)

abbrev pub built_menu : String → List MenuRow → Menu
built_menu restaurant_id rows = record {
  restaurant_id = restaurant_id;
  categories =
      (add_rows rows (record {
        categories = [];
        category_indexes = empty_map;
        item_indexes = empty_map;
      })).categories;
}

abbrev pub found_menu : String → Option Bool → Tx StoreError CatalogTables Menu
found_menu restaurant_id none = throw (catalog restaurant_not_found)
found_menu restaurant_id (some flag) = do
  rows ← query database (λ t. menu_rows t restaurant_id)
  pure (built_menu restaurant_id rows)

-- `GetMenu`
unfoldable pub get_menu : String → Tx StoreError CatalogTables Menu
unfolding add_rows
get_menu restaurant_id = do
  exists ← query database (λ t. open_flag restaurant_id t.restaurants)
  found_menu restaurant_id exists

-- The loop over the items of a menu: a later item of an id takes the place of an earlier one.
unfoldable pub index_items : List MenuItem → Map String MenuItem → Map String MenuItem
index_items [] found = found
index_items (i ∷ is) found = index_items is (insert found i.id i)

unfoldable pub index_menu : List MenuCategory → Map String MenuItem → Map String MenuItem
unfolding index_items
index_menu [] found = found
index_menu (c ∷ cs) found = index_menu cs (index_items c.items found)

-- the loop over the modifiers, from the price so far
unfoldable pub add_modifiers : Map String MenuModifier → ℕ → List String → Result CatalogError ℕ
add_modifiers known price [] = ok price
add_modifiers known price (id ∷ ids) = elim (known id) [
  | none ↦ err (menu_modifier_not_found id)
  | some modifier ↦
      let rest = add_modifiers known (add64 price modifier.price_delta_cents) ids in
      if not modifier.available then err (menu_modifier_not_found id) else rest
]

abbrev priced_item :
    MenuItem → RequestedItem → Result CatalogError ℕ → Result CatalogError ValidatedItem
priced_item item r (err e) = err e
priced_item item r (ok price) = ok (validated_item item r price)

-- the body of the loop over the requested items
unfoldable pub validate_item :
    Map String MenuItem → ℕ → RequestedItem → Result CatalogError ValidatedItem
unfolding add_modifiers index_modifiers
validate_item items_by_id i r =
    if r.menu_item_id == "" || not (is_positive32 r.quantity)
    then err (invalid_menu_item i)
    else elim (items_by_id r.menu_item_id) [
      | none ↦ err (menu_item_not_found r.menu_item_id)
      | some item ↦
          if not item.available
          then err (menu_item_unavailable r.menu_item_id)
          else priced_item item r (
              add_modifiers (index_modifiers item.modifiers empty_map) item.price_cents
                r.modifier_item_ids)
    ]

abbrev and_next :
    ValidatedItem
    → Result CatalogError (List ValidatedItem)
    → Result CatalogError (List ValidatedItem)
and_next v (err e) = err e
and_next v (ok vs) = ok (v ∷ vs)

unfoldable pub validate_items :
    Map String MenuItem → ℕ → List RequestedItem → Result CatalogError (List ValidatedItem)
unfolding validate_item
validate_items items_by_id i [] = ok []
validate_items items_by_id i (r ∷ rs) =
    let rest = validate_items items_by_id (i + 1) rs in
    elim (validate_item items_by_id i r) [ err e ↦ err e | ok v ↦ and_next v rest ]

-- an error of the package among those of the store
abbrev pub raised : {A : Type 0} → Result CatalogError A → Result StoreError A
raised (ok a) = ok a
raised (err e) = err (catalog e)

abbrev pub validate_found :
    String → List RequestedItem → Option Bool → Tx StoreError CatalogTables (List ValidatedItem)
validate_found restaurant_id requested none = throw (catalog restaurant_not_found)
validate_found restaurant_id requested (some false) = throw (catalog restaurant_closed)
validate_found restaurant_id requested (some true) = do
  menu ← get_menu restaurant_id
  from_result (raised (validate_items (index_menu menu.categories empty_map) 0 requested))

-- `ValidateOrderItems`
unfoldable pub validate_order_items :
    String → List RequestedItem → Tx StoreError CatalogTables (List ValidatedItem)
unfolding get_menu validate_items index_menu
validate_order_items restaurant_id requested =
    if is_empty requested
    then throw (catalog invalid_menu_request)
    else query database (λ t. open_flag restaurant_id t.restaurants)
      >>= validate_found restaurant_id requested
