-- ===== src/Catalog/Postgres/Tables.antt =====
-- The tables of the catalog schema, as internal/catalog/postgres reads them, and its menu query. Each
-- table is a list in the order in which the statements give its rows.
use test_task_autumn.Prelude.{
  ℕ, String, Bool, false, not, ◌&&◌, ◌||◌, Option, none, some, List, [], ◌∷◌, ◌++◌, map, leb,
  if◌then◌else◌, ◌==◌, nat_eq, string_eq, keep_if,
}
use test_task_autumn.Catalog.Domain.{Restaurant}

pub record CategoryRow : Type 0 where
  pub id : String
  pub restaurant_id : String
  pub name : String

pub record MenuItemRow : Type 0 where
  pub id : String
  pub restaurant_id : String
  pub category_id : String
  pub name : String
  pub description : String
  pub price_cents : ℕ
  pub available : Bool

pub record ModifierRow : Type 0 where
  pub id : String
  pub menu_item_id : String
  pub name : String
  pub price_delta_cents : ℕ
  pub available : Bool

pub record StopRow : Type 0 where
  pub restaurant_id : String
  pub menu_item_id : String
  pub starts_at : ℕ
  pub ends_at : Option ℕ

-- `now` is the `now()` of the statements of one call.
pub record CatalogTables : Type 0 where
  pub restaurants : List Restaurant
  pub categories : List CategoryRow
  pub items : List MenuItemRow
  pub modifiers : List ModifierRow
  pub stops : List StopRow
  pub now : ℕ

-- restaurantOpenSQL, and restaurantExistsSQL
unfoldable pub open_flag : String → List Restaurant → Option Bool
open_flag id [] = none
open_flag id (r ∷ rs) = if r.id == id then some r.is_open else open_flag id rs

abbrev is_over : Option ℕ → ℕ → Bool
is_over none now = false
is_over (some end) now = leb end now

-- the subquery on the stop list
unfoldable pub is_stopped : MenuItemRow → ℕ → List StopRow → Bool
is_stopped item now [] = false
is_stopped item now (stop ∷ stops) =
    (stop.restaurant_id == item.restaurant_id
      && stop.menu_item_id == item.id
      && leb stop.starts_at now
      && not (is_over stop.ends_at now))
    || is_stopped item now stops

-- A row of getMenuSQL: the columns of an outer join are all NULL, which is `none`, or none of them is.
pub record MenuRow : Type 0 where
  pub category : CategoryRow
  pub item : Option MenuItemRow
  pub modifier : Option ModifierRow

abbrev pub or_null : {A : Type 0} → List A → List (Option A)
or_null [] = none ∷ []
or_null (x ∷ xs) = some x ∷ map some xs

module _ (t : CatalogTables) where
  -- the item with its `available` of the query
  abbrev pub shown_item : MenuItemRow → MenuItemRow
  shown_item i = record i { available = i.available && not (is_stopped i t.now t.stops) }

  abbrev pub modifiers_of : MenuItemRow → List ModifierRow
  modifiers_of i = keep_if (λ m. m.menu_item_id == i.id) t.modifiers

  abbrev pub items_of : CategoryRow → List MenuItemRow
  items_of c = keep_if (λ i. i.category_id == c.id && i.restaurant_id == c.restaurant_id) t.items

  abbrev pub item_rows : CategoryRow → Option MenuItemRow → List MenuRow
  item_rows c none = record { category = c; item = none; modifier = none } ∷ []
  item_rows c (some i) =
      map (λ m. record { category = c; item = some (shown_item i); modifier = m })
        (or_null (modifiers_of i))

  unfoldable pub joined_items : CategoryRow → List (Option MenuItemRow) → List MenuRow
  joined_items c [] = []
  joined_items c (i ∷ is) = item_rows c i ++ joined_items c is

  unfoldable pub joined : List CategoryRow → List MenuRow
  unfolding joined_items
  joined [] = []
  joined (c ∷ cs) = joined_items c (or_null (items_of c)) ++ joined cs

  -- getMenuSQL
  unfoldable pub menu_rows : String → List MenuRow
  unfolding joined is_stopped
  menu_rows restaurant_id = joined (keep_if (λ c. c.restaurant_id == restaurant_id) t.categories)
