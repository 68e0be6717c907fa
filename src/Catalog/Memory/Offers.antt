-- ===== src/Catalog/Memory/Offers.antt =====
-- What the catalog validates is on the menu and available.
use test_task_autumn.Prelude.{
  ℕ, ◌+◌, String, ◌≡◌, refl, sym, ap, ◌∙◌, inl, inr, true, some, List, [], ◌∷◌, ◌++◌, arith, eq_iff,
  ◌==◌, nat_eq, string_eq, Bool-cases, Option-cases, Map, empty_map, insert, All, ok, >>=-eq-ok,
  Result-cases,
}
use mathlib.Core.Path.{subst}
use mathlib.Core.List.{Memᴰ}
use mathlib.Core.List.Memᴰ
use test_task_autumn.Prelude.Words.{add64}
use test_task_autumn.Catalog.Domain.{
  MenuModifier, MenuItem, MenuCategory, Menu, RequestedItem, ValidatedItem,
}
use test_task_autumn.Catalog.Memory.{
  Store, Index, index_modifiers, index_items, index_menu, menu_index, modifier_at, add_modifiers,
  validated_item, validate_item, validate_items, validate_order_items, is_closed,
}

-- all items of a menu
unfoldable pub menu_items : List MenuCategory → List MenuItem
menu_items [] = []
menu_items (c ∷ cs) = c.items ++ menu_items cs

index_modifiers_lem :
    (known xs : List MenuModifier) (m : Map String MenuModifier)
    → ((x : MenuModifier) → Memᴰ x xs → Memᴰ x known)
    → ((i : String) (x : MenuModifier) → m i ≡ some x → Memᴰ x known × (x.id ≡ i))
    → (i : String) (x : MenuModifier) → index_modifiers xs m i ≡ some x
    → Memᴰ x known × (x.id ≡ i)
unfolding index_modifiers
index_modifiers_lem known [] m in_known old i x h = old i x h
index_modifiers_lem known (y ∷ ys) m in_known old i x h =
    index_modifiers_lem known ys (insert m y.id y) (λ z q. in_known z (Memᴰ.tail q))
      (λ j z q. elim (Bool-cases (y.id == j)) [
        | inl hit ↦
            let same : y ≡ z = ground arith in
            (in_known z (Memᴰ.head (sym same)), ap (λ w. w.id) (sym same) ∙ (eq_iff y.id j).0 hit)
        | inr miss ↦ old j z (ground arith)
      ])
      i x h

-- An entry of the index is an item of the menu, with its own modifiers.
abbrev pub IsSound : List MenuItem → Index → Type 0
IsSound known x =
    (i : String) (item : MenuItem)
    → x.items_by_id i ≡ some item
    → Memᴰ item known
      × (item.id ≡ i)
      × (x.modifiers_by_item_id i ≡ some (index_modifiers item.modifiers empty_map))

index_items-IsSound :
    (known items : List MenuItem) (x : Index)
    → ((item : MenuItem) → Memᴰ item items → Memᴰ item known)
    → IsSound known x
    → IsSound known (index_items items x)
unfolding index_items
index_items-IsSound known [] x in_known sound = sound
index_items-IsSound known (y ∷ ys) x in_known sound =
    index_items-IsSound known ys _ (λ z q. in_known z (Memᴰ.tail q))
      (λ j z q. elim (Bool-cases (y.id == j)) [
        | inl hit ↦
            let same : y ≡ z = ground arith in
            (
              in_known z (Memᴰ.head (sym same)),
              ap (λ w. w.id) (sym same) ∙ (eq_iff y.id j).0 hit,
              rw (hit, same) refl,
            )
        | inr miss ↦ let (a, b, c) = sound j z (ground arith) in (a, b, rw miss c)
      ])

index_menu-IsSound :
    (known : List MenuItem) (cs : List MenuCategory) (x : Index)
    → ((item : MenuItem) → Memᴰ item (menu_items cs) → Memᴰ item known)
    → IsSound known x
    → IsSound known (index_menu cs x)
unfolding index_menu menu_items
index_menu-IsSound known [] x in_known sound = sound
index_menu-IsSound known (c ∷ cs) x in_known sound =
    index_menu-IsSound known cs (index_items c.items x)
      (λ z q. in_known z (Memᴰ.append_right c.items q))
      (index_items-IsSound known c.items x (λ z q. in_known z (Memᴰ.append_left (menu_items cs) q))
        sound)

pub menu_index-IsSound : (menu : Menu) → IsSound (menu_items menu.categories) (menu_index menu)
unfolding menu_index
menu_index-IsSound menu =
    index_menu-IsSound _ menu.categories _ (λ item q. q) (λ i item h. absurd (cc h))

-- The item offers an available modifier of this id.
abbrev OffersModifier : MenuItem → String → Type 0
OffersModifier item id =
    (m : MenuModifier) × Memᴰ m item.modifiers × (m.id ≡ id) × (m.available ≡ true)

-- The menu has an available item of this id and name, which offers each of the modifiers.
abbrev pub IsOffered : Menu → ValidatedItem → Type 0
IsOffered menu v =
    (item : MenuItem) × Memᴰ item (menu_items menu.categories)
    × (item.id ≡ v.menu_item_id)
    × (item.name ≡ v.name)
    × (item.available ≡ true)
    × All (OffersModifier item) v.modifier_item_ids

add_modifiers_lem :
    (x : Index) (item : MenuItem) (price price' : ℕ) (ids : List String)
    → x.modifiers_by_item_id item.id ≡ some (index_modifiers item.modifiers empty_map)
    → add_modifiers x item.id price ids ≡ ok price'
    → All (OffersModifier item) ids
unfolding add_modifiers
add_modifiers_lem x item price price' [] own h = tt
add_modifiers_lem x item price price' (id ∷ ids) own h =
    elim (Option-cases (modifier_at x item.id id)) [
      | inl e ↦ absurd (ground arith)
      | inr (m, e) ↦
          let (on_item, same) =
            index_modifiers_lem item.modifiers item.modifiers empty_map (λ z q. q)
              (λ i z q. absurd (cc q)) id m (rw (own, modifier_at) at e) in
          let rest : add_modifiers x item.id (add64 price m.price_delta_cents) ids ≡ ok price' =
            ground arith in
          let sold : m.available ≡ true = ground arith in
          (
            (m, on_item, same, sold),
            add_modifiers_lem x item (add64 price m.price_delta_cents) price' ids own rest,
          )
    ]

validate_item-IsOffered :
    (menu : Menu) (i : ℕ) (r : RequestedItem) (v : ValidatedItem)
    → validate_item (menu_index menu) i r ≡ ok v
    → IsOffered menu v
unfolding validate_item
validate_item-IsOffered menu i r v h =
    elim (Option-cases ((menu_index menu).items_by_id r.menu_item_id)) [
      | inl e ↦ absurd (ground arith)
      | inr (item, e) ↦
          let (on_menu, id, own) = menu_index-IsSound menu r.menu_item_id item e in
          let sold : item.available ≡ true = ground arith in
          elim (Result-cases
            (add_modifiers (menu_index menu) item.id item.price_cents r.modifier_item_ids)) [
              | inr (bad, fails) ↦ absurd (ground arith)
              | inl (price, added) ↦
                  let made : validated_item item r price ≡ v = ground arith in
                  subst (IsOffered menu) made (
                    item,
                    on_menu,
                    refl,
                    refl,
                    sold,
                    add_modifiers_lem (menu_index menu) item item.price_cents price
                        r.modifier_item_ids (rw id own) added,
                  )
            ]
    ]

validate_items-IsOffered :
    (menu : Menu) (i : ℕ) (rs : List RequestedItem) (vs : List ValidatedItem)
    → validate_items (menu_index menu) i rs ≡ ok vs
    → All (IsOffered menu) vs
unfolding validate_items
validate_items-IsOffered menu i [] vs h =
    let e : [] ≡ vs = cc h in subst (All (IsOffered menu)) e tt
validate_items-IsOffered menu i (r ∷ rs) vs h =
    let (v, first, more) = >>=-eq-ok (validate_item (menu_index menu) i r) _ h in
    let (rest, others, done) = >>=-eq-ok (validate_items (menu_index menu) (i + 1) rs) _ more in
    let e : v ∷ rest ≡ vs = cc done in
    subst (All (IsOffered menu)) e (
      validate_item-IsOffered menu i r v first,
      validate_items-IsOffered menu (i + 1) rs rest others,
    )

-- What `ValidateOrderItems` returns is on the menu of the restaurant: each item is an available one of
-- that menu, and so is each of its modifiers of that item.
pub validate_order_items-IsOffered :
    (s : Store) (restaurant_id : String) (requested : List RequestedItem) (vs : List ValidatedItem)
    (menu : Menu)
    → s.menus restaurant_id ≡ some menu
    → validate_order_items restaurant_id requested s ≡ ok vs
    → All (IsOffered menu) vs
unfolding validate_order_items
validate_order_items-IsOffered s restaurant_id [] vs menu e valid = absurd (cc valid)
validate_order_items-IsOffered s restaurant_id (r ∷ rs) vs menu e valid =
    elim (Bool-cases (is_closed restaurant_id s.restaurants)) [
      | inl closed ↦ absurd (ground arith)
      | inr open_ ↦ validate_items-IsOffered menu 0 (r ∷ rs) vs (ground arith)
    ]
