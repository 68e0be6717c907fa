-- ===== src/Order/Flow.antt =====
-- The service over the memory store: `CreateOrder` end to end.
pub mod Writes
use test_task_autumn.Prelude.{
  ℕ, zero, suc, ◌+◌, ◌-◌, ◌*◌, ◌/◌, ◌%◌, ◌^◌, ◌≤◌, ◌<◌, String, ◌<>◌, ◌≡◌, refl, sym, ap, ◌∙◌, ◌≢◌,
  ◌↔◌, ◌⊎◌, inl, inr, Bool, true, false, not, ◌&&◌, ◌||◌, Option, none, some, List, [], ◌∷◌, ◌++◌,
  map, arith, eq_iff, eq_refl, ltb, leb, if◌then◌else◌, Eq, ◌==◌, ◌!=◌, nat_eq, string_eq,
  Bool-cases, Option-cases, Map, empty_map, insert, length, is_empty, take, keep_if, All,
  length-append, is_empty-append_cons, length-take-le, contains, Result, ok, err, ◌>>=◌, >>=-eq-ok,
  Result-cases, ◌>>◌, fail_if,
}
use test_task_autumn.Events.Envelope.{new_envelope}
use test_task_autumn.Order.Errors.{Error, catalog_required, idempotency_conflict}
use test_task_autumn.Order.Domain.{Order, NewOrderItemInput, NewOrderInput, new_order}
use test_task_autumn.Order.Domain.Totals.{new_order-Snapshot}
use test_task_autumn.Order.Service.Ports.{
  CreateOrderInput, CreateOrderRecord, CreateOrderResult, Catalog,
}
use test_task_autumn.Order.Service.Fingerprint.{fingerprint_create_order_request}
use test_task_autumn.Order.Service.{
  World, Service, validate_create_order_input, make_record, create_new, create_with, create_order,
}
use test_task_autumn.Order.Memory.{
  with_order, order_at, Store, IdempotencyKey, IdempotencyRecord, memory_store,
  find_order_by_idempotency_key,
}
use test_task_autumn.Order.Memory
use test_task_autumn.Order.Memory.Laws.{IsValid, owner, with_order-IsValid}
use test_task_autumn.Order.Memory.Replay.{
  FreshReach, Evolves, FreshReach-Evolves, FreshReach-idempotency,
}

abbrev pub key_of : CreateOrderInput → IdempotencyKey
key_of input = record { user_id = input.user_id; key = input.idempotency_key }

abbrev pub print_of : World → CreateOrderInput → String
print_of w input = fingerprint_create_order_request w.sha256_hex input

-- The order service over a memory store, with or without a catalog.
abbrev pub over_memory : Option Catalog → Service Store
over_memory c = record { catalog = c; store = some memory_store }

-- `make_record` keeps the user, the key and the fingerprint of the request, and takes the order's id
-- from the first id that `newID` gave.
pub make_record_fields :
    (w : World) (input : CreateOrderInput) (print : String) (items : List NewOrderItemInput)
    (r : CreateOrderRecord)
    → make_record w input print items ≡ ok r
    → (r.order.user_id ≡ input.user_id)
      × (r.idempotency_key ≡ input.idempotency_key)
      × (r.request_fingerprint ≡ print)
      × (r.order.id ≡ w.order_id)
unfolding make_record new_envelope
make_record_fields w input print items r h =
    let from : NewOrderInput = record {
      order_id = w.order_id;
      user_id = input.user_id;
      restaurant_id = input.restaurant_id;
      items = items;
    } in
    let (o, made, rest) = >>=-eq-ok (new_order from) _ h in
    let s = (new_order-Snapshot from o).0 made in ground (arith, s.user_id, s.id)

-- No stored order has the id that `newID` gives.
abbrev pub IsFreshId : World → Store → Type 0
IsFreshId w s = s.orders w.order_id ≡ none

module _ (w : World) (c : Option Catalog) (input : CreateOrderInput) (s : Store) where
  -- Why `CreateOrder` fails: the request is not valid; its key is on record with another fingerprint; or
  -- the key is new and there is no catalog, the catalog refuses the items, or no record is made of them.
  pub data Reason (e : Error) : Type 0 where
    bad_request : validate_create_order_input input ≡ err e → Reason e
    reused_key :
        (x : IdempotencyRecord)
        → s.idempotency (key_of input) ≡ some x
        → x.fingerprint ≢ print_of w input
        → e ≡ idempotency_conflict
        → Reason e
    no_catalog : s.idempotency (key_of input) ≡ none → c ≡ none → e ≡ catalog_required → Reason e
    not_offered :
        (catalog : Catalog)
        → s.idempotency (key_of input) ≡ none
        → c ≡ some catalog
        → catalog.validate_order_items input.restaurant_id input.items ≡ err e
        → Reason e
    not_made :
        (catalog : Catalog) (items : List NewOrderItemInput)
        → s.idempotency (key_of input) ≡ none
        → c ≡ some catalog
        → catalog.validate_order_items input.restaurant_id input.items ≡ ok items
        → make_record w input (print_of w input) items ≡ err e
        → Reason e

  -- The three ways in which `CreateOrder` ends.
  pub data Created (out : Result Error CreateOrderResult × Store) : Type 0 where
    failed : (e : Error) → Reason e → out ≡ (err e, s) → Created out
    reused :
        (x : IdempotencyRecord)
        → s.idempotency (key_of input) ≡ some x
        → x.fingerprint ≡ print_of w input
        → out ≡ (ok (record { order = order_at s x.order_id; reused_idempotency_key = true }), s)
        → Created out
    created :
        (catalog : Catalog) (items : List NewOrderItemInput) (r : CreateOrderRecord)
        → s.idempotency (key_of input) ≡ none
        → c ≡ some catalog
        → catalog.validate_order_items input.restaurant_id input.items ≡ ok items
        → make_record w input (print_of w input) items ≡ ok r
        → out ≡ (ok (record { order = r.order; reused_idempotency_key = false }), with_order s r)
        → Created out

  stored :
      (catalog : Catalog) (items : List NewOrderItemInput) (r : CreateOrderRecord)
      → s.idempotency (key_of input) ≡ none
      → c ≡ some catalog
      → catalog.validate_order_items input.restaurant_id input.items ≡ ok items
      → make_record w input (print_of w input) items ≡ ok r
      → Created (Memory.create_order r s)
  unfolding Memory.create_order
  stored catalog items r absent e valid made =
      let (user, key, _, _) = make_record_fields w input (print_of w input) items r made in
      created catalog items r absent e valid made (ground arith)

  missed :
      (o : Option Catalog)
      → c ≡ o
      → s.idempotency (key_of input) ≡ none
      → Created (create_new w o memory_store input (print_of w input) s)
  unfolding create_new
  missed none e absent = failed catalog_required (no_catalog absent e refl) refl
  missed (some catalog) e absent =
      elim (Result-cases (catalog.validate_order_items input.restaurant_id input.items)) [
        | inr (x, fails) ↦ failed x (not_offered catalog absent e fails) (rw (fails, create_new))
        | inl (items, valid) ↦ elim (Result-cases (make_record w input (print_of w input) items)) [
          | inr (x, fails) ↦
              failed x (not_made catalog items absent e valid fails) (rw (valid, create_new, fails))
          | inl (r, made) ↦
              rw (valid, create_new, made) (stored catalog items r absent e valid made)
        ]
      ]

  looked_up : Created (create_with w c memory_store input s)
  unfolding create_with find_order_by_idempotency_key
  looked_up = elim (Option-cases (s.idempotency (key_of input))) [
    | inl absent ↦ rw (absent, create_with) (missed c refl absent)
    | inr (x, e) ↦ elim (Bool-cases (x.fingerprint == print_of w input)) [
      | inl same ↦
          reused x e ((eq_iff x.fingerprint (print_of w input)).0 same) (rw (e, create_with, same))
      | inr differ ↦
          failed idempotency_conflict
            (reused_key x e (λ p. cc ((eq_iff x.fingerprint (print_of w input)).1 p)) refl)
            (rw (e, create_with, differ))
    ]
  ]

  -- `CreateOrder` fails and leaves the store as it was; or it returns the order that the key has on
  -- record with the same fingerprint, and leaves the store as it was; or the key is new, the catalog
  -- has accepted the items, and the record that is made of them is what the store writes.
  pub create_order-Created : Created (create_order w (over_memory c) input s)
  unfolding create_order
  create_order-Created = elim (Result-cases (validate_create_order_input input)) [
    | inr (e, fails) ↦ failed e (bad_request fails) (rw (fails, create_order))
    | inl (_, passes) ↦ rw (passes, create_order) looked_up
  ]

-- A key on record for a stored order.
abbrev pub Bound : Store → IdempotencyKey → String → Order → Type 0
Bound s k print o =
    (x : IdempotencyRecord) × (s.idempotency k ≡ some x)
    × (x.fingerprint ≡ print)
    × (s.orders x.order_id ≡ some o)

pub order_at_owned :
    (s : Store) (id user : String) → owner s id ≡ some user → s.orders id ≡ some (order_at s id)
order_at_owned s id user h = ground arith

Created-Bound :
    (w : World) (c : Option Catalog) (input : CreateOrderInput) (s : Store)
    (res : CreateOrderResult)
    → IsValid s
    → Created w c input s (create_order w (over_memory c) input s)
    → (create_order w (over_memory c) input s).0 ≡ ok res
    → Bound (create_order w (over_memory c) input s).1 (key_of input) (print_of w input) res.order
Created-Bound w c input s res v (failed e _ q) h = cc (ap (λ p. p.0) q)
Created-Bound w c input s res v (reused x e same q) h =
    let found : order_at s x.order_id ≡ res.order = cc (ap (λ p. p.0) q) in
    rw (q, ← found)
      (x, e, same, order_at_owned s x.order_id input.user_id (v.keyed (key_of input) x e))
Created-Bound w c input s res v (created catalog items r _ _ _ made q) h =
    let new : r.order ≡ res.order = cc (ap (λ p. p.0) q) in
    let (user, key, print, _) = make_record_fields w input (print_of w input) items r made in
    rw (q, ← new)
      (
        record { fingerprint = r.request_fingerprint; order_id = r.order.id },
        ground (arith, eq_refl r.order.user_id, eq_refl r.idempotency_key),
        print,
        ground (arith, eq_refl r.order.id),
      )

created_IsValid :
    (w : World) (c : Option Catalog) (input : CreateOrderInput) (s : Store)
    → IsValid s
    → IsFreshId w s
    → Created w c input s (create_order w (over_memory c) input s)
    → IsValid (create_order w (over_memory c) input s).1
created_IsValid w c input s v fresh (failed e _ q) = rw q v
created_IsValid w c input s v fresh (reused x e same q) = rw q v
created_IsValid w c input s v fresh (created catalog items r absent _ _ made q) =
    let (user, key, _, id) = make_record_fields w input (print_of w input) items r made in
    rw q (with_order-IsValid r s (rw id fresh) v)

-- `CreateOrder` keeps the invariant of the store, if no stored order has the id that `newID` gives.
pub create_order-IsValid :
    (w : World) (c : Option Catalog) (input : CreateOrderInput) (s : Store)
    → IsValid s
    → IsFreshId w s
    → IsValid (create_order w (over_memory c) input s).1
create_order-IsValid w c input s v fresh =
    created_IsValid w c input s v fresh (create_order-Created w c input s)

ok_of_invalid :
    (w : World) (c : Option Catalog) (input : CreateOrderInput) (s : Store)
    (res : CreateOrderResult)
    → (create_order w (over_memory c) input s).0 ≡ ok res
    → validate_create_order_input input ≡ ok tt
unfolding create_order
ok_of_invalid w c input s res h = elim (Result-cases (validate_create_order_input input)) [
  | inl (_, passes) ↦ passes
  | inr (e, fails) ↦ absurd (ground arith)
]

hit :
    (w : World) (c : Option Catalog) (input : CreateOrderInput) (s : Store) (o : Order)
    → validate_create_order_input input ≡ ok tt
    → Bound s (key_of input) (print_of w input) o
    → create_order w (over_memory c) input s
      ≡ (ok (record { order = o; reused_idempotency_key = true }), s)
unfolding create_order create_with find_order_by_idempotency_key
hit w c input s o valid (x, e, print, filed) =
    rw (valid, create_order) (ground (arith, eq_iff x.fingerprint (print_of w input)))

-- A request that succeeded, on a store with the invariant and under an id that was new to it, can be
-- repeated safely. Whatever partner events came between, and whatever creates, each with an order id that
-- no order of the store it met had: the same request, with any ids, clock and catalog of its own (also
-- with none) and the same digest, returns the order of the first, as it has evolved, marked as reused,
-- and writes nothing.
pub create_order_again :
    (w w' : World) (c c' : Option Catalog) (input : CreateOrderInput) (s t : Store)
    (res : CreateOrderResult)
    → IsValid s
    → IsFreshId w s
    → w'.sha256_hex ≡ w.sha256_hex
    → (create_order w (over_memory c) input s).0 ≡ ok res
    → FreshReach (create_order w (over_memory c) input s).1 t
    → (o : Order) × Evolves res.order o
      × (create_order w' (over_memory c') input t
          ≡ (ok (record { order = o; reused_idempotency_key = true }), t))
create_order_again w w' c c' input s t res v fresh hash h reach =
    let (x, e, print, filed) =
      Created-Bound w c input s res v (create_order-Created w c input s) h in
    let (o, at, ev) =
      FreshReach-Evolves x.order_id res.order (create_order-IsValid w c input s v fresh) filed
        reach in
    let kept = FreshReach-idempotency (key_of input) x e reach in
    (o, ev, hit w' c' input t o (ok_of_invalid w c input s res h) (x, kept, rw hash print, at))
