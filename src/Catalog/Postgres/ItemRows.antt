-- ===== src/Catalog/Postgres/ItemRows.antt =====
-- The rows of one item in the loop of `GetMenu`.
use test_task_autumn.Prelude.{
  ℕ, String, ◌≡◌, refl, sym, ap, ◌∙◌, Option, none, some, List, [], ◌∷◌, ◌++◌, map, eq_refl, nat_eq,
  string_eq, Map, insert, length,
}
use mathlib.Core.List.{append-nil, append_assoc, map-append}
use test_task_autumn.Catalog.Domain.{MenuItem, MenuCategory}
use test_task_autumn.Catalog.Postgres.Tables.{
  CategoryRow, MenuItemRow, ModifierRow, MenuRow, or_null,
}
use test_task_autumn.Catalog.Postgres.{
  Building, change_at, items_at, with_category, menu_item, menu_modifier, with_item, add_row,
  add_rows,
}

change_at-last :
    {A : Type 0} (f : A → A) (xs : List A) (x : A)
    → change_at (length xs) f (xs ++ x ∷ []) ≡ xs ++ f x ∷ []
unfolding change_at
change_at-last f [] x = refl
change_at-last f (y ∷ ys) x = ap (λ zs. y ∷ zs) (change_at-last f ys x)

items_at-last :
    (cs : List MenuCategory) (c : MenuCategory) → items_at (length cs) (cs ++ c ∷ []) ≡ c.items
items_at-last [] c = refl
items_at-last (d ∷ ds) c = items_at-last ds c

pub add_rows-append :
    (xs ys : List MenuRow) (b : Building) → add_rows (xs ++ ys) b ≡ add_rows ys (add_rows xs b)
unfolding add_rows
add_rows-append [] ys b = refl
add_rows-append (x ∷ xs) ys b = add_rows-append xs ys (add_row x b)

-- The menu whose last category holds these items.
abbrev pub last_items : List MenuCategory → CategoryRow → List MenuItem → List MenuCategory
last_items before c items = before ++ record { id = c.id; name = c.name; items = items } ∷ []

pub with_category_known :
    (r : MenuRow) (b : Building) (at : ℕ)
    → b.category_indexes r.category.id ≡ some at
    → with_category r b ≡ (at, b)
unfolding with_category
with_category_known r b at h = rw (with_category, h) refl

with_item_known :
    (i : MenuItemRow) (at : ℕ) (b : Building) (location : ℕ × ℕ)
    → b.item_indexes i.id ≡ some location
    → with_item i at b ≡ (location, b)
unfolding with_item
with_item_known i at b location h = rw (with_item, h) refl

abbrev pub building : List MenuCategory → Map String ℕ → Map String (ℕ × ℕ) → Building
building categories cx ix = record {
  categories = categories;
  category_indexes = cx;
  item_indexes = ix;
}

abbrev item_with : MenuItemRow → List ModifierRow → MenuItem
item_with i ms = record (menu_item i) { modifiers = map menu_modifier ms }

abbrev with_one : ModifierRow → MenuItem → MenuItem
with_one m item = record item { modifiers = item.modifiers ++ menu_modifier m ∷ [] }

abbrev pub row : CategoryRow → MenuItemRow → Option ModifierRow → MenuRow
row c i m = record { category = c; item = some i; modifier = m }

module _ (before : List MenuCategory) (c : CategoryRow) (items : List MenuItem) (i : MenuItemRow)
    (cx : Map String ℕ) (ix : Map String (ℕ × ℕ)) where
  abbrev pub with_last : List ModifierRow → Building
  with_last ms = building (last_items before c (items ++ item_with i ms ∷ [])) cx ix

  add_modifier_row :
      (m : ModifierRow) (done : List ModifierRow)
      → cx c.id ≡ some (length before)
      → ix i.id ≡ some (length before, length items)
      → add_row (row c i (some m)) (with_last done) ≡ with_last (done ++ m ∷ [])
  add_modifier_row m done hc hi =
      rw
        (
          with_category_known (row c i (some m)) (with_last done) (length before) hc,
          with_item_known i (length before) (with_last done) (length before, length items) hi,
        )
        (ap (λ cs. building cs cx ix)
          (change_at-last (λ x. record x { items = change_at (length items) (with_one m) x.items })
              before _
            ∙ ap (last_items before c) (
                change_at-last (with_one m) items (item_with i done)
                ∙ ap (λ ms. items ++ record (menu_item i) { modifiers = ms } ∷ [])
                    (sym (map-append menu_modifier done (m ∷ []))))))

  -- The rows of one item after its first add its modifiers.
  add_modifier_rows :
      (ms done : List ModifierRow)
      → cx c.id ≡ some (length before)
      → ix i.id ≡ some (length before, length items)
      → add_rows (map (λ m. row c i (some m)) ms) (with_last done) ≡ with_last (done ++ ms)
  unfolding add_rows
  add_modifier_rows [] done hc hi = ap with_last (sym (append-nil done))
  add_modifier_rows (m ∷ ms) done hc hi =
      ap (add_rows (map (λ m. row c i (some m)) ms)) (add_modifier_row m done hc hi)
      ∙ add_modifier_rows ms (done ++ m ∷ []) hc hi
      ∙ ap with_last (append_assoc done (m ∷ []) ms)

rows_some :
    (c : CategoryRow) (i : MenuItemRow) (ms : List ModifierRow)
    → map (λ m. row c i m) (map some ms) ≡ map (λ m. row c i (some m)) ms
rows_some c i [] = refl
rows_some c i (m ∷ ms) = ap (λ rows. row c i (some m) ∷ rows) (rows_some c i ms)

module _ (before : List MenuCategory) (c : CategoryRow) (items : List MenuItem) (i : MenuItemRow)
    (cx : Map String ℕ) (ix : Map String (ℕ × ℕ)) where
  abbrev new_indexes : Map String (ℕ × ℕ)
  new_indexes = insert ix i.id (length before, length items)

  abbrev bare : Building
  bare = with_last before c items i cx new_indexes []

  with_item_new :
      ix i.id ≡ none
      → with_item i (length before) (building (last_items before c items) cx ix)
        ≡ ((length before, length items), bare)
  unfolding with_item
  with_item_new hi =
      rw (with_item, hi, items_at-last before (record { id = c.id; name = c.name; items = items }))
        (ap (λ cs. ((length before, length items), building cs cx new_indexes))
          (change_at-last (λ x. record x { items = x.items ++ menu_item i ∷ [] }) before _))

  -- The first row of an item adds it.
  add_row_new :
      (m : Option ModifierRow)
      → cx c.id ≡ some (length before)
      → ix i.id ≡ none
      → add_row (row c i m) (building (last_items before c items) cx ix) ≡ add_row (row c i m) bare
  add_row_new m hc hi =
      let there : new_indexes i.id ≡ some (length before, length items) = rw (eq_refl i.id) refl in
      rw
        (
          with_category_known (row c i m) (building (last_items before c items) cx ix)
              (length before) hc,
          with_category_known (row c i m) bare (length before) hc,
          with_item_new hi,
          with_item_known i (length before) bare (length before, length items) there,
        )
        refl

  add_row-bare : cx c.id ≡ some (length before) → add_row (row c i none) bare ≡ bare
  add_row-bare hc =
      let there : new_indexes i.id ≡ some (length before, length items) = rw (eq_refl i.id) refl in
      rw
        (
          with_category_known (row c i none) bare (length before) hc,
          with_item_known i (length before) bare (length before, length items) there,
        )
        refl

  -- An item that is not yet there is added with its modifiers.
  pub add_new_rows :
      (ms : List ModifierRow)
      → cx c.id ≡ some (length before)
      → ix i.id ≡ none
      → add_rows (map (λ m. row c i m) (or_null ms)) (building (last_items before c items) cx ix)
        ≡ with_last before c items i cx new_indexes ms
  unfolding add_rows
  add_new_rows [] hc hi = add_row_new none hc hi ∙ add_row-bare hc
  add_new_rows (m ∷ ms) hc hi =
      let there : new_indexes i.id ≡ some (length before, length items) = rw (eq_refl i.id) refl in
      ap
        (λ rows.
          add_rows rows (add_row (row c i (some m)) (building (last_items before c items) cx ix)))
        (rows_some c i ms)
      ∙ ap (add_rows (map (λ x. row c i (some x)) ms)) (add_row_new (some m) hc hi)
      ∙ add_modifier_rows before c items i cx new_indexes (m ∷ ms) [] hc there
