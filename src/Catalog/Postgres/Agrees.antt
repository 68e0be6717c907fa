-- ===== src/Catalog/Postgres/Agrees.antt =====
-- The two stores of the catalog validate an order alike.
use test_task_autumn.Prelude.{
  String, ◌≡◌, refl, sym, ap, ◌∙◌, ◌⊎◌, inl, inr, Bool, true, false, not, Option, none, some, List,
  [], nat_eq, string_eq, Bool-cases, Option-cases, empty_map, is_empty, ok, err, Result-cases,
}
use test_task_autumn.Prelude.Distinct.{AreDistinct}
use test_task_autumn.Catalog.Postgres.Described.{described_menu, categories_of, items_in}
use test_task_autumn.Catalog.Postgres.Menus.{built_menu_lem}
use test_task_autumn.Database.{Plan, pure, throw, ◌>>=◌}
use test_task_autumn.Database.Honest.{IsHonest, honest_rules}
use test_task_autumn.Catalog.Domain.{Menu, RequestedItem}
use test_task_autumn.Catalog.Memory as Memory
use test_task_autumn.Catalog.Memory.{
  Store, Index, index_modifiers, modifier_at, menu_index, is_closed,
}
use test_task_autumn.Catalog.Memory.Offers.{menu_index-IsSound, menu_items}
use test_task_autumn.Catalog.Postgres.Tables.{CatalogTables, open_flag}
use test_task_autumn.Catalog.Postgres.{
  StoreError, get_menu, found_menu, raised, validate_found, validate_order_items,
}
use test_task_autumn.Catalog.Postgres.Items.{index_menu_lem, validate_items_lem}

-- The tables and the memory store have the same menu of a restaurant, and the restaurant is there, and
-- open, in both or in neither.
pub record ShowsMenu (id : String) (t : CatalogTables) (s : Store) : Type 0 where
  pub menu : get_menu id [] t ≡ (raised (Memory.get_menu id s), [], t)
  pub is_open :
      open_flag id t.restaurants
      ≡ elim (s.menus id) [ none ↦ none | some menu ↦ some (not (is_closed id s.restaurants)) ]

agrees_open :
    (id : String) (requested : List RequestedItem) (t : CatalogTables) (s : Store) (menu : Menu)
    → s.menus id ≡ some menu
    → ShowsMenu id t s
    → is_closed id s.restaurants ≡ false
    → validate_found id requested (some true) [] t
      ≡ (raised (Memory.validate_items (menu_index menu) 0 requested), [], t)
unfolding ◌>>=◌ Memory.get_menu menu_index pure throw
agrees_open id requested t s menu there shows opens =
    let got : get_menu id [] t ≡ (ok menu, [], t) = shows.menu ∙ rw (Memory.get_menu, there) refl in
    let same =
      validate_items_lem (menu_items menu.categories) (menu_index menu) 0 requested
        (menu_index-IsSound menu) in
    let index =
      index_menu_lem menu.categories
        (record { items_by_id = empty_map; modifiers_by_item_id = empty_map }) in
    rw (got, index, same)
      (elim (Result-cases (Memory.validate_items (menu_index menu) 0 requested)) [
        | inl (vs, q) ↦ rw q refl
        | inr (e, q) ↦ rw q refl
      ])

validate_order_items_clean :
    (id : String) (requested : List RequestedItem) (t : CatalogTables) (s : Store)
    → ShowsMenu id t s
    → validate_order_items id requested [] t
      ≡ (raised (Memory.validate_order_items id requested s), [], t)
unfolding validate_order_items Memory.validate_order_items ◌>>=◌
validate_order_items_clean id requested t s shows = elim (Bool-cases (is_empty requested)) [
  | inl none_ ↦ rw none_ refl
  | inr some_ ↦ elim (Option-cases (s.menus id)) [
    | inl gone ↦
        let flag : open_flag id t.restaurants ≡ none = shows.is_open ∙ rw gone refl in
        rw (some_, flag, gone) refl
    | inr (menu, there) ↦
        let flag : open_flag id t.restaurants ≡ some (not (is_closed id s.restaurants)) =
          shows.is_open ∙ rw there refl in
        elim (Bool-cases (is_closed id s.restaurants)) [
          | inl closed ↦ rw (some_, flag, there, closed) refl
          | inr opens ↦
              rw (some_, flag, there, opens) (agrees_open id requested t s menu there shows opens)
        ]
  ]
]

found_menu-IsHonest : (id : String) (flag : Option Bool) → IsHonest (found_menu id flag)
found_menu-IsHonest id none = search honest_rules
found_menu-IsHonest id (some flag) = search honest_rules depth 8

get_menu-IsHonest : (id : String) → IsHonest (get_menu id)
unfolding get_menu
get_menu-IsHonest id = search (honest_rules, found_menu-IsHonest) depth 8

validate_found-IsHonest :
    (id : String) (requested : List RequestedItem) (flag : Option Bool)
    → IsHonest (validate_found id requested flag)
validate_found-IsHonest id requested none = search honest_rules
validate_found-IsHonest id requested (some false) = search honest_rules
validate_found-IsHonest id requested (some true) = search (honest_rules, get_menu-IsHonest) depth 8

validate_order_items-IsHonest :
    (id : String) (requested : List RequestedItem) → IsHonest (validate_order_items id requested)
unfolding validate_order_items
validate_order_items-IsHonest id requested = search (honest_rules, validate_found-IsHonest) depth 8

-- The memory store has the menu that the tables describe of the restaurant, if they have that, and has
-- it open where they have; in the tables no two categories of the restaurant, and no two of their items,
-- have the same id, as the primary keys see to.
pub record Describes (id : String) (t : CatalogTables) (s : Store) : Type 0 where
  pub categories : AreDistinct (λ c. c.id) (categories_of t id)
  pub items : AreDistinct (λ i. i.id) (items_in t (categories_of t id))
  pub menu :
      s.menus id
      ≡ elim (open_flag id t.restaurants) [ none ↦ none | some flag ↦ some (described_menu t id) ]
  pub is_open :
      (flag : Bool) → open_flag id t.restaurants ≡ some flag → is_closed id s.restaurants ≡ not flag

not-not : (b : Bool) → not (not b) ≡ b
not-not true = refl
not-not false = refl

Describes-ShowsMenu :
    (id : String) (t : CatalogTables) (s : Store) → Describes id t s → ShowsMenu id t s
unfolding get_menu Memory.get_menu ◌>>=◌
Describes-ShowsMenu id t s d = elim (Option-cases (open_flag id t.restaurants)) [
  | inl gone ↦
      let none_ : s.menus id ≡ none = d.menu ∙ rw gone refl in
      record { menu = rw (gone, Memory.get_menu, none_) refl; is_open = rw (gone, none_) refl }
  | inr (flag, there) ↦
      let some_ : s.menus id ≡ some (described_menu t id) = d.menu ∙ rw there refl in
      let built = built_menu_lem t id d.categories d.items in
      record {
        menu = rw (there, Memory.get_menu, some_) (ap (λ menu. (ok menu, [], t)) built);
        is_open = rw (there, some_, d.is_open flag there) (ap some (sym (not-not flag)));
      }
]

-- For tables with distinct ids, and a memory store that has the menu which they describe of the
-- restaurant and agrees on whether it is open: with no fault, `ValidateOrderItems` of the postgres store,
-- with the menu that `GetMenu` builds of the joined rows, returns what that of the memory store returns,
-- the prices and the errors included, and leaves the tables alone; and whatever faults come, it returns
-- the same or reports some error.
pub validate_order_items_agree :
    (id : String) (requested : List RequestedItem) (plan : Plan) (t : CatalogTables) (s : Store)
    → Describes id t s
    → (validate_order_items id requested [] t
        ≡ (raised (Memory.validate_order_items id requested s), [], t))
      × (((e : StoreError) × ((validate_order_items id requested plan t).0 ≡ err e))
          ⊎ ((validate_order_items id requested plan t).0
              ≡ raised (Memory.validate_order_items id requested s)))
validate_order_items_agree id requested plan t s d =
    let clean = validate_order_items_clean id requested t s (Describes-ShowsMenu id t s d) in
    (
      clean,
      elim ((validate_order_items-IsHonest id requested).ends plan t) [
        | inl failed ↦ inl failed
        | inr (same, _) ↦ inr (same ∙ ap (λ o. o.0) clean)
      ],
    )
