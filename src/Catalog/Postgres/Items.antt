-- ===== src/Catalog/Postgres/Items.antt =====
-- The loops of `ValidateOrderItems` do what those of the memory store do.
use test_task_autumn.Prelude.{
  ℕ, ◌+◌, String, ◌≡◌, refl, ap, ◌∙◌, inl, inr, not, ◌||◌, some, List, [], ◌∷◌, ◌==◌, nat_eq,
  string_eq, Bool-cases, Option-cases, Map, empty_map, Result-cases,
}
use test_task_autumn.Prelude.Words.{add64, is_positive32}
use test_task_autumn.Database.{◌>>=◌}
use test_task_autumn.Catalog.Domain.{MenuModifier, MenuItem, MenuCategory, RequestedItem}
use test_task_autumn.Catalog.Memory as Memory
use test_task_autumn.Catalog.Memory.{
  Store, Index, index_modifiers, modifier_at, menu_index, is_closed,
}
use test_task_autumn.Catalog.Memory.Offers.{IsSound}
use test_task_autumn.Catalog.Postgres.{
  add_modifiers, validate_item, validate_items, index_items, index_menu,
}

-- The map of the items is that of the memory store.
index_items_lem :
    (items : List MenuItem) (x : Index)
    → index_items items x.items_by_id ≡ (Memory.index_items items x).items_by_id
unfolding index_items Memory.index_items
index_items_lem [] x = refl
index_items_lem (i ∷ is) x = index_items_lem is _

pub index_menu_lem :
    (categories : List MenuCategory) (x : Index)
    → index_menu categories x.items_by_id ≡ (Memory.index_menu categories x).items_by_id
unfolding index_menu Memory.index_menu
index_menu_lem [] x = refl
index_menu_lem (c ∷ cs) x =
    ap (index_menu cs) (index_items_lem c.items x)
    ∙ index_menu_lem cs (Memory.index_items c.items x)

add_modifiers_lem :
    (x : Index) (item_id : String) (known : Map String MenuModifier) (price : ℕ) (ids : List String)
    → x.modifiers_by_item_id item_id ≡ some known
    → add_modifiers known price ids ≡ Memory.add_modifiers x item_id price ids
unfolding add_modifiers Memory.add_modifiers
add_modifiers_lem x item_id known price [] h = refl
add_modifiers_lem x item_id known price (id ∷ ids) h = elim (Option-cases (known id)) [
  | inl q ↦ rw (Memory.add_modifiers, h, add_modifiers, q) refl
  | inr (m, q) ↦
      rw
        (
          Memory.add_modifiers,
          h,
          add_modifiers,
          q,
          add_modifiers_lem x item_id known (add64 price m.price_delta_cents) ids h,
        )
        refl
]

validate_item_lem :
    (known : List MenuItem) (x : Index) (i : ℕ) (r : RequestedItem)
    → IsSound known x
    → validate_item x.items_by_id i r ≡ Memory.validate_item x i r
unfolding validate_item Memory.validate_item ◌>>=◌
validate_item_lem known x i r sound =
    elim (Bool-cases (r.menu_item_id == "" || not (is_positive32 r.quantity))) [
      | inl bad ↦ rw bad refl
      | inr good ↦ elim (Option-cases (x.items_by_id r.menu_item_id)) [
        | inl q ↦ rw (good, q) refl
        | inr (item, q) ↦
            let (_, own, modifiers) = sound r.menu_item_id item q in
            let priced =
              add_modifiers_lem x item.id (index_modifiers item.modifiers empty_map)
                item.price_cents r.modifier_item_ids (ap x.modifiers_by_item_id own ∙ modifiers) in
            rw (good, q)
              (elim (Bool-cases item.available) [
                | inr gone ↦ rw gone refl
                | inl there ↦
                    rw (there, priced)
                      (elim (Result-cases
                        (Memory.add_modifiers x item.id item.price_cents r.modifier_item_ids)) [
                          | inl (price, p) ↦ rw p refl
                          | inr (e, p) ↦ rw p refl
                        ])
              ])
      ]
    ]

pub validate_items_lem :
    (known : List MenuItem) (x : Index) (i : ℕ) (rs : List RequestedItem)
    → IsSound known x
    → validate_items x.items_by_id i rs ≡ Memory.validate_items x i rs
unfolding validate_items Memory.validate_items ◌>>=◌
validate_items_lem known x i [] sound = refl
validate_items_lem known x i (r ∷ rs) sound =
    let rest = validate_items_lem known x (i + 1) rs sound in
    rw (validate_items, validate_item_lem known x i r sound)
      (elim (Result-cases (Memory.validate_item x i r)) [
        | inr (e, p) ↦ rw (p, Memory.validate_items) refl
        | inl (v, p) ↦ elim (Result-cases (Memory.validate_items x (i + 1) rs)) [
          | inl (vs, q) ↦ rw (p, rest, q, Memory.validate_items) refl
          | inr (e, q) ↦ rw (p, rest, q, Memory.validate_items) refl
        ]
      ])
