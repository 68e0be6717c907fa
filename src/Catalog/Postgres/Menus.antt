-- ===== src/Catalog/Postgres/Menus.antt =====
-- The loop of `GetMenu` over the joined rows builds the menu that the tables describe.
use test_task_autumn.Prelude.{
  ℕ, String, ◌≡◌, refl, sym, ap, ◌∙◌, false, none, List, [], ◌∷◌, ◌++◌, map, ◌==◌, nat_eq,
  string_eq, Map, empty_map, insert, length, All,
}
use mathlib.Core.List.{append-nil, append_assoc}
use test_task_autumn.Catalog.Domain.{MenuCategory}
use test_task_autumn.Catalog.Postgres.Tables.{
  CatalogTables, CategoryRow, or_null, items_of, joined_items, joined, menu_rows,
}
use test_task_autumn.Catalog.Postgres.{add_rows, built_menu}
use test_task_autumn.Prelude.Distinct.{
  AreDistinct, AreDistinct-append, All-append, All-map, All-both,
}
use test_task_autumn.Catalog.Postgres.Described.{
  category_of, categories_of, described_menu, items_in,
}
use test_task_autumn.Catalog.Postgres.ItemRows.{add_rows-append, building}
use test_task_autumn.Catalog.Postgres.CategoryRows.{add_category}

module _ (t : CatalogTables) where
  add_categories :
      (cs : List CategoryRow) (cats : List MenuCategory) (cx : Map String ℕ)
      (ix : Map String (ℕ × ℕ))
      → AreDistinct (λ c. c.id) cs
      → All (λ c. cx c.id ≡ none) cs
      → AreDistinct (λ i. i.id) (items_in t cs)
      → All (λ i. ix i.id ≡ none) (items_in t cs)
      → (add_rows (joined t cs) (building cats cx ix)).categories ≡ cats ++ map (category_of t) cs
  unfolding joined add_rows items_in AreDistinct
  add_categories [] cats cx ix apart new apart_items fresh = sym (append-nil cats)
  add_categories (c ∷ cs) cats cx ix (others, apart) (new, news) apart_items fresh =
      let (own, rest, cross) =
        AreDistinct-append (λ i. i.id) (items_of t c) (items_in t cs) apart_items in
      let (fresh_own, fresh_rest) =
        All-append (λ i. ix i.id ≡ none) (items_of t c) (items_in t cs) fresh in
      let (ix', run, kept) = add_category t c cats cx ix new own fresh_own in
      let cx1 = insert cx c.id (length cats) in
      let news' : All (λ d. cx1 d.id ≡ none) cs =
        All-map (λ d. ((c.id == d.id) ≡ false) × (cx d.id ≡ none)) (λ d. cx1 d.id ≡ none) cs
          (λ d (miss, free). rw miss free) (All-both _ _ cs others news) in
      let fresh' : All (λ i. ix' i.id ≡ none) (items_in t cs) =
        All-map (λ j. All (λ i. (i.id == j.id) ≡ false) (items_of t c) × (ix j.id ≡ none))
          (λ j. ix' j.id ≡ none) (items_in t cs)
          (λ j (apart_from, free). kept j.id apart_from ∙ free)
          (All-both _ _ (items_in t cs) cross fresh_rest) in
      ap (λ b. b.categories)
        (add_rows-append (joined_items t c (or_null (items_of t c))) (joined t cs)
          (building cats cx ix))
      ∙ ap (λ b. (add_rows (joined t cs) b).categories) run
      ∙ add_categories cs (cats ++ category_of t c ∷ []) cx1 ix' apart news' rest fresh'
      ∙ append_assoc cats (category_of t c ∷ []) (map (category_of t) cs)

  none_there :
      {A : Type 0} (B : Type 0) (id : A → String) (xs : List A)
      → All (λ x. empty_map {K = String} {V = B} (id x) ≡ none) xs
  none_there B id [] = tt
  none_there B id (x ∷ xs) = (refl, none_there B id xs)

  -- The loop gives the menu that the tables describe.
  pub built_menu_lem :
      (restaurant_id : String)
      → AreDistinct (λ c. c.id) (categories_of t restaurant_id)
      → AreDistinct (λ i. i.id) (items_in t (categories_of t restaurant_id))
      → built_menu restaurant_id (menu_rows t restaurant_id) ≡ described_menu t restaurant_id
  unfolding menu_rows
  built_menu_lem restaurant_id apart apart_items =
      ap (λ cs. record { restaurant_id = restaurant_id; categories = cs })
        (add_categories (categories_of t restaurant_id) [] empty_map empty_map apart
          (none_there ℕ (λ c. c.id) (categories_of t restaurant_id)) apart_items
          (none_there (ℕ × ℕ) (λ i. i.id) (items_in t (categories_of t restaurant_id))))
