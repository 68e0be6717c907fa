-- ===== src/Catalog/Domain.antt =====
-- internal/catalog/domain/catalog.go. Prices are int64 and quantities int32 bit patterns.
use test_task_autumn.Prelude.{ℕ, String, Bool, List, nat_eq, string_eq}

-- The sentinels of the package, with what `fmt.Errorf` wraps into them.
pub data CatalogError : Type 0 where
  restaurant_not_found restaurant_closed invalid_menu_request : CatalogError
  invalid_menu_item : ℕ → CatalogError
  menu_item_not_found menu_item_unavailable menu_modifier_not_found : String → CatalogError
  catalog_unavailable : CatalogError

pub record Restaurant : Type 0 where
  pub id : String
  pub name : String
  pub cuisine : String
  pub is_open : Bool

pub record MenuModifier : Type 0 where
  pub id : String
  pub name : String
  pub price_delta_cents : ℕ
  pub available : Bool

pub record MenuItem : Type 0 where
  pub id : String
  pub name : String
  pub description : String
  pub price_cents : ℕ
  pub available : Bool
  pub modifiers : List MenuModifier

pub record MenuCategory : Type 0 where
  pub id : String
  pub name : String
  pub items : List MenuItem

pub record Menu : Type 0 where
  pub restaurant_id : String
  pub categories : List MenuCategory

pub record RequestedItem : Type 0 where
  pub menu_item_id : String
  pub quantity : ℕ
  pub modifier_item_ids : List String

pub record ValidatedItem : Type 0 where
  pub menu_item_id : String
  pub name : String
  pub unit_price_cents : ℕ
  pub quantity : ℕ
  pub modifier_item_ids : List String
  pub line_total_cents : ℕ
