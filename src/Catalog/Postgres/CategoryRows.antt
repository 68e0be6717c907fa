-- ===== src/Catalog/Postgres/CategoryRows.antt =====
-- The rows of one category in the loop of `GetMenu`.
use test_task_autumn.Prelude.{
  ℕ, String, ◌≡◌, refl, sym, ap, ◌∙◌, false, none, some, List, [], ◌∷◌, ◌++◌, map, eq_refl, ◌==◌,
  nat_eq, string_eq, Map, insert, length, All,
}
use mathlib.Core.List.{append-nil, append_assoc, map-append}
use test_task_autumn.Catalog.Domain.{MenuCategory}
use test_task_autumn.Catalog.Postgres.Tables.{
  CatalogTables, CategoryRow, MenuItemRow, MenuRow, or_null, shown_item, modifiers_of, items_of,
  item_rows, joined_items,
}
use test_task_autumn.Catalog.Postgres.{with_category, with_columns, add_rows}
use test_task_autumn.Prelude.Distinct.{AreDistinct}
use test_task_autumn.Catalog.Postgres.Described.{item_of, category_of}
use test_task_autumn.Catalog.Postgres.ItemRows.{
  add_rows-append, with_category_known, building, last_items, row, add_new_rows,
}

still_fresh :
    {A : Type 0} (id : String) (ix : Map String A) (a : A) (is : List MenuItemRow)
    → All (λ i. (id == i.id) ≡ false) is
    → All (λ i. ix i.id ≡ none) is
    → All (λ i. insert ix id a i.id ≡ none) is
still_fresh id ix a [] others fresh = tt
still_fresh id ix a (i ∷ is) (miss, others) (new, fresh) =
    (rw miss new, still_fresh id ix a is others fresh)

module _ (t : CatalogTables) where
  -- New items of the last category are added in turn.
  add_items :
      (before : List MenuCategory) (c : CategoryRow) (is done : List MenuItemRow)
      (cx : Map String ℕ) (ix : Map String (ℕ × ℕ))
      → cx c.id ≡ some (length before)
      → AreDistinct (λ i. i.id) is
      → All (λ i. ix i.id ≡ none) is
      → (ix' : Map String (ℕ × ℕ)) × (add_rows
            (joined_items t c (map some is))
            (building (last_items before c (map (item_of t) done)) cx ix)
          ≡ building (last_items before c (map (item_of t) (done ++ is))) cx ix')
        × ((j : String) → All (λ i. (i.id == j) ≡ false) is → ix' j ≡ ix j)
  unfolding joined_items AreDistinct add_rows
  add_items before c [] done cx ix hc apart fresh = (
    ix,
    ap (λ is. building (last_items before c (map (item_of t) is)) cx ix) (sym (append-nil done)),
    λ j h. refl,
  )
  add_items before c (i ∷ is) done cx ix hc (others, apart) (new, fresh) =
      let ix1 = insert ix i.id (length before, length (map (item_of t) done)) in
      let (ix', rest, same) =
        add_items before c is (done ++ i ∷ []) cx ix1 hc apart
          (still_fresh i.id ix _ is others fresh) in
      let start = building (last_items before c (map (item_of t) done)) cx ix in
      (
        ix',
        add_rows-append (item_rows t c (some i)) (joined_items t c (map some is)) start
            ∙ ap (add_rows (joined_items t c (map some is))) (
                add_new_rows before c (map (item_of t) done) (shown_item t i) cx ix
                  (modifiers_of t i) hc new
                ∙ ap (λ its. building (last_items before c its) cx ix1)
                    (sym (map-append (item_of t) done (i ∷ []))))
            ∙ rest
            ∙ ap (λ js. building (last_items before c (map (item_of t) js)) cx ix')
                (append_assoc done (i ∷ []) is),
        λ j (miss, h). same j h ∙ rw miss refl,
      )

  -- The rows of a category are its own, and there is at least one.
  category_rows :
      (c : CategoryRow) (is : List MenuItemRow)
      → (r : MenuRow) × (rs : List MenuRow) × (joined_items t c (or_null is) ≡ r ∷ rs)
        × (r.category ≡ c)
  unfolding joined_items
  category_rows c [] = (record { category = c; item = none; modifier = none }, [], refl, refl)
  category_rows c (i ∷ is) =
      elim (modifiers_of t i)
        as (λ ms.
          (r : MenuRow) × (rs : List MenuRow) × (map (λ m. row c (shown_item t i) m) (or_null ms)
              ++ joined_items t c (map some is)
            ≡ r ∷ rs)
          × (r.category ≡ c)) [
            | [] ↦ (row c (shown_item t i) none, joined_items t c (map some is), refl, refl)
            | m ∷ ms ↦ (row c (shown_item t i) (some m), _, refl, refl)
          ]

  first_of :
      (r : MenuRow) (cats : List MenuCategory) (cx : Map String ℕ) (ix : Map String (ℕ × ℕ))
      → cx r.category.id ≡ none
      → with_category r (building cats cx ix) ≡ (
        length cats,
        building (last_items cats r.category []) (insert cx r.category.id (length cats)) ix,
      )
  unfolding with_category
  first_of r cats cx ix new = rw (with_category, new) refl

  only_row :
      (c : CategoryRow) (cats : List MenuCategory) (cx : Map String ℕ) (ix : Map String (ℕ × ℕ))
      → cx c.id ≡ some (length cats)
      → add_rows
          (record { category = c; item = none; modifier = none } ∷ [])
          (building (last_items cats c []) cx ix)
        ≡ building (last_items cats c []) cx ix
  unfolding add_rows
  only_row c cats cx ix there = ap (with_columns none none) (
      with_category_known (record { category = c; item = none; modifier = none })
        (building (last_items cats c []) cx ix) (length cats) there)

  -- With the category there, its rows add its items.
  enter :
      (c : CategoryRow) (is : List MenuItemRow) (cats : List MenuCategory) (cx : Map String ℕ)
      (ix : Map String (ℕ × ℕ))
      → cx c.id ≡ some (length cats)
      → AreDistinct (λ i. i.id) is
      → All (λ i. ix i.id ≡ none) is
      → (ix' : Map String (ℕ × ℕ)) × (add_rows
            (joined_items t c (or_null is))
            (building (last_items cats c []) cx ix)
          ≡ building (last_items cats c (map (item_of t) is)) cx ix')
        × ((j : String) → All (λ i. (i.id == j) ≡ false) is → ix' j ≡ ix j)
  unfolding joined_items
  enter c [] cats cx ix there apart fresh = (ix, only_row c cats cx ix there, λ j h. refl)
  enter c (i ∷ is) cats cx ix there apart fresh =
      add_items cats c (i ∷ is) [] cx ix there apart fresh

  first_row :
      (r : MenuRow) (rs : List MenuRow) (c : CategoryRow) (rows : List MenuRow)
      (cats : List MenuCategory) (cx : Map String ℕ) (ix : Map String (ℕ × ℕ))
      → rows ≡ r ∷ rs
      → with_category r (building cats cx ix)
        ≡ with_category r (building (last_items cats c []) (insert cx c.id (length cats)) ix)
      → add_rows rows (building cats cx ix)
        ≡ add_rows rows (building (last_items cats c []) (insert cx c.id (length cats)) ix)
  unfolding add_rows
  first_row r rs c rows cats cx ix split same =
      rw split (ap (λ b. add_rows rs (with_columns r.item r.modifier b)) same)

  -- The first row of a category adds it.
  with_category_new :
      (r : MenuRow) (c : CategoryRow) (cats : List MenuCategory) (cx : Map String ℕ)
      (ix : Map String (ℕ × ℕ))
      → r.category ≡ c
      → cx c.id ≡ none
      → with_category r (building cats cx ix)
        ≡ with_category r (building (last_items cats c []) (insert cx c.id (length cats)) ix)
  with_category_new r c cats cx ix same new = rw (← same) (
      let new' : cx r.category.id ≡ none = ap (λ x. cx x.id) same ∙ new in
      let there : insert cx r.category.id (length cats) r.category.id ≡ some (length cats) =
        rw (eq_refl r.category.id) refl in
      first_of r cats cx ix new'
      ∙ sym (
          with_category_known r
            (building (last_items cats r.category []) (insert cx r.category.id (length cats)) ix)
            (length cats) there))

  pub add_category :
      (c : CategoryRow) (cats : List MenuCategory) (cx : Map String ℕ) (ix : Map String (ℕ × ℕ))
      → cx c.id ≡ none
      → AreDistinct (λ i. i.id) (items_of t c)
      → All (λ i. ix i.id ≡ none) (items_of t c)
      → (ix' : Map String (ℕ × ℕ)) × (add_rows
            (joined_items t c (or_null (items_of t c)))
            (building cats cx ix)
          ≡ building (cats ++ category_of t c ∷ []) (insert cx c.id (length cats)) ix')
        × ((j : String) → All (λ i. (i.id == j) ≡ false) (items_of t c) → ix' j ≡ ix j)
  add_category c cats cx ix new apart fresh =
      let (r, rs, rows, same) = category_rows c (items_of t c) in
      let cx1 = insert cx c.id (length cats) in
      let there : cx1 c.id ≡ some (length cats) = rw (eq_refl c.id) refl in
      let (ix', run, kept) = enter c (items_of t c) cats cx1 ix there apart fresh in
      (
        ix',
        first_row r rs c (joined_items t c (or_null (items_of t c))) cats cx ix rows
              (with_category_new r c cats cx ix same new)
            ∙ run,
        kept,
      )
