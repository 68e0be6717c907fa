-- ===== src/Order/Memory.antt =====
-- internal/order/memory/store.go. Each method holds the mutex from its first line to its last, so a
-- call is one step on the store. Orders are values, so the deep copies are the identity.
pub mod Laws
pub mod Inbox
pub mod Replay
pub mod Once
pub mod Effects
use test_task_autumn.Prelude.{
  ℕ, zero, suc, ◌+◌, ◌-◌, ◌*◌, ◌/◌, ◌%◌, ◌^◌, ◌≤◌, ◌<◌, String, ◌<>◌, ◌≡◌, refl, sym, ap, ◌∙◌, ◌≢◌,
  ◌↔◌, ◌⊎◌, inl, inr, Bool, true, false, not, ◌&&◌, ◌||◌, Option, none, some, List, [], ◌∷◌, ◌++◌,
  map, arith, eq_iff, eq_refl, ltb, leb, if◌then◌else◌, Eq, ◌==◌, ◌!=◌, nat_eq, string_eq,
  Bool-cases, Option-cases, Map, empty_map, insert, length, is_empty, take, keep_if, All,
  length-append, is_empty-append_cons, length-take-le, contains, Result, ok, err, ◌>>=◌, >>=-eq-ok,
  Result-cases, ◌>>◌, fail_if,
}
use test_task_autumn.Events.Envelope.{Envelope}
use test_task_autumn.Order.Errors.{Error, idempotency_conflict, order_not_found, inbox_conflict}
use test_task_autumn.Order.Domain.{Order, transition_to}
use test_task_autumn.Order.Service.Ports.{
  CreateOrderRecord, CreateOrderResult, ApplyPartnerEventRecord, ApplyPartnerEventResult,
  OrderStore,
}

pub record IdempotencyKey : Type 0 where
  pub user_id : String
  pub key : String

abbrev pub key_beq : IdempotencyKey → IdempotencyKey → Bool
key_beq a b = a.user_id == b.user_id && a.key == b.key

pub key_beq_iff : (a b : IdempotencyKey) → (key_beq a b ≡ true) ↔ (a ≡ b)
key_beq_iff a b = ground (arith, eq_iff a.user_id b.user_id, eq_iff a.key b.key)

instance abbrev pub key_eq : Eq IdempotencyKey
key_eq = record { equals = key_beq; equals_iff = key_beq_iff }

pub record IdempotencyRecord : Type 0 where
  pub fingerprint : String
  pub order_id : String

pub record InboxRecord : Type 0 where
  pub fingerprint : String
  pub order_id : String

pub record Store : Type 0 where
  pub orders : Map String Order
  pub idempotency : Map IdempotencyKey IdempotencyRecord
  pub inbox : Map String InboxRecord
  pub outbox : List Envelope

abbrev pub new_store : Store
new_store = record { orders = empty_map; idempotency = empty_map; inbox = empty_map; outbox = [] }

-- the zero value, which a read of a missing key gives
abbrev pub zero_order : Order
zero_order = record {
  id = "";
  user_id = "";
  restaurant_id = "";
  status = "";
  items = [];
  total_cents = 0;
  version = 0;
}

-- `s.orders[id]` without the second result
abbrev pub order_at : Store → String → Order
order_at s id = elim (s.orders id) [ none ↦ zero_order | some o ↦ o ]

unfoldable pub find_by_key :
    Store → IdempotencyKey → String → Result Error (Option CreateOrderResult)
find_by_key s key fingerprint = elim (s.idempotency key) [
  | none ↦ ok none
  | some existing ↦
      if existing.fingerprint != fingerprint
      then err idempotency_conflict
      else ok
          (some (record { order = order_at s existing.order_id; reused_idempotency_key = true }))
]

unfoldable pub find_order_by_idempotency_key :
    String → String → String → Store → Result Error (Option CreateOrderResult)
unfolding find_by_key
find_order_by_idempotency_key user_id key fingerprint s =
    find_by_key s (record { user_id = user_id; key = key }) fingerprint

abbrev pub record_key : CreateOrderRecord → IdempotencyKey
record_key r = record { user_id = r.order.user_id; key = r.idempotency_key }

-- the three writes of `CreateOrder`
abbrev pub with_order : Store → CreateOrderRecord → Store
with_order s r = record s {
  orders = insert s.orders r.order.id r.order;
  idempotency =
      insert s.idempotency (record_key r)
        (record { fingerprint = r.request_fingerprint; order_id = r.order.id });
  outbox = s.outbox ++ r.outbox_event ∷ [];
}

unfoldable pub create_order : CreateOrderRecord → Store → Result Error CreateOrderResult × Store
unfolding find_by_key
create_order r s = elim (find_by_key s (record_key r) r.request_fingerprint) [
  | err e ↦ (err e, s)
  | ok (some existing) ↦ (ok existing, s)
  | ok none ↦ (ok (record { order = r.order; reused_idempotency_key = false }), with_order s r)
]

unfoldable pub get_order : String → String → Store → Result Error Order
get_order order_id user_id s = elim (s.orders order_id) [
  | none ↦ err order_not_found
  | some o ↦ if o.user_id != user_id then err order_not_found else ok o
]

-- the writes of `ApplyPartnerEvent`
abbrev pub with_event : Store → ApplyPartnerEventRecord → Order → Store
with_event s r o = record s {
  orders = insert s.orders o.id o;
  inbox =
      insert s.inbox r.event_id (record { fingerprint = r.payload_fingerprint; order_id = o.id });
}

abbrev pub apply_transition :
    Store
    → ApplyPartnerEventRecord
    → Order × Result Error Bool
    → Result Error ApplyPartnerEventResult × Store
apply_transition s r (o, err e) = (err e, s)
apply_transition s r (o, ok changed) =
    (ok (record { order = o; duplicate = false; changed = changed }), with_event s r o)

abbrev pub apply_duplicate :
    Store → ApplyPartnerEventRecord → InboxRecord → Result Error ApplyPartnerEventResult
apply_duplicate s r existing =
    if existing.fingerprint != r.payload_fingerprint
    then err inbox_conflict
    else elim (s.orders existing.order_id) [
      | none ↦ err order_not_found
      | some o ↦ ok (record { order = o; duplicate = true; changed = false })
    ]

unfoldable pub apply_partner_event :
    ApplyPartnerEventRecord → Store → Result Error ApplyPartnerEventResult × Store
apply_partner_event r s = elim (s.inbox r.event_id) [
  | some existing ↦ (apply_duplicate s r existing, s)
  | none ↦ elim (s.orders r.order_id) [
    | none ↦ (err order_not_found, s)
    | some o ↦ apply_transition s r (transition_to o r.new_status)
  ]
]

abbrev pub memory_store : OrderStore Store
memory_store = record {
  find_order = find_order_by_idempotency_key;
  create_order = create_order;
  get_order = get_order;
  apply_partner_event = apply_partner_event;
}
