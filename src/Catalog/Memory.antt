-- ===== src/Catalog/Memory.antt =====
-- internal/catalog/memory/store.go, but for its fixture. Menus are values, so `copyMenu` is the identity.
pub mod Offers
use test_task_autumn.Prelude.{
  ℕ, zero, suc, ◌+◌, ◌-◌, ◌*◌, ◌/◌, ◌%◌, ◌^◌, ◌≤◌, ◌<◌, String, ◌<>◌, ◌≡◌, refl, sym, ap, ◌∙◌, ◌≢◌,
  ◌↔◌, ◌⊎◌, inl, inr, Bool, true, false, not, ◌&&◌, ◌||◌, Option, none, some, List, [], ◌∷◌, ◌++◌,
  map, arith, eq_iff, eq_refl, ltb, leb, if◌then◌else◌, Eq, ◌==◌, ◌!=◌, nat_eq, string_eq,
  Bool-cases, Option-cases, Map, empty_map, insert, length, is_empty, take, keep_if, All,
  length-append, is_empty-append_cons, length-take-le, contains, Result, ok, err, ◌>>=◌, >>=-eq-ok,
  Result-cases, ◌>>◌, fail_if,
}
use test_task_autumn.Prelude.Words.{add64, mul64, int64, is_positive32}
use test_task_autumn.Catalog.Domain.{
  CatalogError, restaurant_not_found, restaurant_closed, invalid_menu_request, invalid_menu_item,
  menu_item_not_found, menu_item_unavailable, menu_modifier_not_found, Restaurant, MenuModifier,
  MenuItem, MenuCategory, Menu, RequestedItem, ValidatedItem,
}

pub record Store : Type 0 where
  pub restaurants : List Restaurant
  pub menus : Map String Menu

-- `ListRestaurants`
abbrev pub list_restaurants : Store → List Restaurant
list_restaurants s = s.restaurants

-- `GetMenu`
unfoldable pub get_menu : String → Store → Result CatalogError Menu
get_menu restaurant_id s = elim (s.menus restaurant_id) [
  | none ↦ err restaurant_not_found
  | some menu ↦ ok menu
]

-- the loop over the restaurants
unfoldable pub is_closed : String → List Restaurant → Bool
is_closed restaurant_id [] = false
is_closed restaurant_id (r ∷ rs) =
    (r.id == restaurant_id && not r.is_open) || is_closed restaurant_id rs

-- The loop over a menu: a later item or modifier of an id takes the place of an earlier one.
unfoldable pub index_modifiers :
    List MenuModifier → Map String MenuModifier → Map String MenuModifier
index_modifiers [] m = m
index_modifiers (x ∷ xs) m = index_modifiers xs (insert m x.id x)

pub record Index : Type 0 where
  pub items_by_id : Map String MenuItem
  pub modifiers_by_item_id : Map String (Map String MenuModifier)

unfoldable pub index_items : List MenuItem → Index → Index
unfolding index_modifiers
index_items [] x = x
index_items (i ∷ is) x = index_items is (record {
  items_by_id = insert x.items_by_id i.id i;
  modifiers_by_item_id = insert x.modifiers_by_item_id i.id (index_modifiers i.modifiers empty_map);
})

unfoldable pub index_menu : List MenuCategory → Index → Index
unfolding index_items
index_menu [] x = x
index_menu (c ∷ cs) x = index_menu cs (index_items c.items x)

-- a read of a missing map finds nothing
abbrev pub modifier_at : Index → String → String → Option MenuModifier
modifier_at x item_id modifier_id = elim (x.modifiers_by_item_id item_id) [
  | none ↦ none
  | some modifiers ↦ modifiers modifier_id
]

-- the loop over the modifiers, from the price so far
unfoldable pub add_modifiers : Index → String → ℕ → List String → Result CatalogError ℕ
add_modifiers x item_id price [] = ok price
add_modifiers x item_id price (id ∷ ids) = elim (modifier_at x item_id id) [
  | none ↦ err (menu_modifier_not_found id)
  | some modifier ↦
      let rest = add_modifiers x item_id (add64 price modifier.price_delta_cents) ids in
      if not modifier.available then err (menu_modifier_not_found id) else rest
]

abbrev pub validated_item : MenuItem → RequestedItem → ℕ → ValidatedItem
validated_item item r unit_price = record {
  menu_item_id = item.id;
  name = item.name;
  unit_price_cents = unit_price;
  quantity = r.quantity;
  modifier_item_ids = r.modifier_item_ids;
  line_total_cents = mul64 unit_price (int64 r.quantity);
}

-- the body of the loop over the requested items
unfoldable pub validate_item : Index → ℕ → RequestedItem → Result CatalogError ValidatedItem
unfolding add_modifiers
validate_item x i r =
    if r.menu_item_id == "" || not (is_positive32 r.quantity)
    then err (invalid_menu_item i)
    else elim (x.items_by_id r.menu_item_id) [
      | none ↦ err (menu_item_not_found r.menu_item_id)
      | some item ↦ if not item.available then err (menu_item_unavailable r.menu_item_id) else do
        unit_price ← add_modifiers x item.id item.price_cents r.modifier_item_ids
        ok (validated_item item r unit_price)
    ]

unfoldable pub validate_items :
    Index → ℕ → List RequestedItem → Result CatalogError (List ValidatedItem)
unfolding validate_item
validate_items x i [] = ok []
validate_items x i (r ∷ rs) = do
  v ← validate_item x i r
  vs ← validate_items x (i + 1) rs
  ok (v ∷ vs)

unfoldable pub menu_index : Menu → Index
unfolding index_menu
menu_index menu =
    index_menu menu.categories
      (record { items_by_id = empty_map; modifiers_by_item_id = empty_map })

-- `ValidateOrderItems`
unfoldable pub validate_order_items :
    String → List RequestedItem → Store → Result CatalogError (List ValidatedItem)
unfolding is_closed menu_index validate_items
validate_order_items restaurant_id requested s =
    if is_empty requested then err invalid_menu_request else elim (s.menus restaurant_id) [
      | none ↦ err restaurant_not_found
      | some menu ↦
          if is_closed restaurant_id s.restaurants
          then err restaurant_closed
          else validate_items (menu_index menu) 0 requested
    ]
