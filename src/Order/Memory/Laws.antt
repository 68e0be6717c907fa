-- ===== src/Order/Memory/Laws.antt =====
-- The invariant of the store.
use test_task_autumn.Prelude.{
  String, ◌≡◌, ◌⊎◌, inl, inr, Bool, true, false, Option, none, some, arith, eq_iff, nat_eq,
  string_eq,
}
use test_task_autumn.Order.Domain.{Order}
use test_task_autumn.Order.Service.Ports.{CreateOrderRecord, ApplyPartnerEventRecord}
use test_task_autumn.Order.Memory.Inbox.{apply_partner_event_states}
use test_task_autumn.Order.Memory.{
  with_order, Store, IdempotencyKey, IdempotencyRecord, InboxRecord, new_store, create_order,
  apply_partner_event,
}

-- The user that the order with this id belongs to.
abbrev pub owner : Store → String → Option String
owner s id = elim (s.orders id) [ none ↦ none | some o ↦ some o.user_id ]

abbrev pub is_stored : Store → String → Bool
is_stored s id = elim (s.orders id) [ none ↦ false | some o ↦ true ]

-- Orders are filed under their ids; an idempotency key names a stored order of its user, and an
-- event on record a stored order.
pub record IsValid (s : Store) : Type 0 where
  pub filed : (id : String) (o : Order) → s.orders id ≡ some o → o.id ≡ id
  pub keyed :
      (k : IdempotencyKey) (r : IdempotencyRecord)
      → s.idempotency k ≡ some r
      → owner s r.order_id ≡ some k.user_id
  pub received : (e : String) (r : InboxRecord) → s.inbox e ≡ some r → is_stored s r.order_id ≡ true

pub new_store-IsValid : IsValid new_store
new_store-IsValid = record {
  filed = λ id o h. absurd (cc);
  keyed = λ k r h. absurd (cc);
  received = λ e r h. absurd (cc);
}

-- The order of the record is new to the store: no stored order has its id.
abbrev pub IsFresh : CreateOrderRecord → Store → Type 0
IsFresh r s = s.orders r.order.id ≡ none

-- The writes of a new order under a fresh id keep the invariant.
pub with_order-IsValid :
    (r : CreateOrderRecord) (s : Store) → IsFresh r s → IsValid s → IsValid (with_order s r)
with_order-IsValid r s fresh v = record {
  filed = λ id o h. ground (arith, eq_iff r.order.id id, v.filed id o);
  keyed = λ k x h. ground (
    arith,
    eq_iff r.order.user_id k.user_id,
    eq_iff r.idempotency_key k.key,
    eq_iff r.order.id x.order_id,
    v.keyed k x,
  );
  received = λ e x h. ground (arith, eq_iff r.order.id x.order_id, v.received e x);
}

create_order_states :
    (r : CreateOrderRecord) (s : Store)
    → ((create_order r s).1 ≡ s) ⊎ ((create_order r s).1 ≡ with_order s r)
unfolding create_order
create_order_states r s = ground arith

-- A create call keeps the invariant, if the order's id is fresh.
pub create_order-IsValid :
    (r : CreateOrderRecord) (s : Store) → IsFresh r s → IsValid s → IsValid (create_order r s).1
create_order-IsValid r s fresh v = elim (create_order_states r s) [
  | inl e ↦ rw e v
  | inr e ↦ rw e (with_order-IsValid r s fresh v)
]

-- A partner event keeps the invariant, whatever it says.
pub apply_partner_event-IsValid :
    (r : ApplyPartnerEventRecord) (s : Store) → IsValid s → IsValid (apply_partner_event r s).1
apply_partner_event-IsValid r s v = elim (apply_partner_event_states r s) [
  | inl e ↦ rw e v
  | inr (o, o', found, same_id, same_user, e) ↦ rw e (record {
    filed = λ id p h. ground (arith, eq_iff o'.id id, v.filed id p);
    keyed =
        λ k x h. ground (arith, v.filed r.order_id o found, eq_iff o'.id x.order_id, v.keyed k x h);
    received =
        λ e x h. ground (arith, eq_iff o'.id x.order_id, eq_iff r.event_id e, v.received e x);
  })
]
