-- ===== src/Order/Memory/Replay.antt =====
-- Any interleaving of calls on the store, whose creates come with ids new to it: orders evolve, and keys and events stay on record.
use test_task_autumn.Prelude.{
  ◌≤◌, String, ◌≡◌, refl, sym, ap, ◌∙◌, inl, inr, true, some, arith, eq_iff, eq_refl, ◌==◌, nat_eq,
  string_eq, Bool-cases, Option-cases, Map, ok,
}
use test_task_autumn.Order.Status.{Status}
use test_task_autumn.Order.Status.Edges.{rank, rank_of_transition, Edge, can_transition_iff}
use test_task_autumn.Order.Domain.{Order}
use test_task_autumn.Order.Domain.Lifecycle.{moved}
use test_task_autumn.Order.Service.Ports.{
  CreateOrderRecord, CreateOrderResult, ApplyPartnerEventRecord,
}
use test_task_autumn.Order.Memory.{
  Store, key_beq_iff, IdempotencyKey, IdempotencyRecord, InboxRecord, record_key, create_order,
  apply_partner_event, with_event,
}
use test_task_autumn.Order.Memory.Inbox.{
  Outcome, duplicate, conflict, lost, unknown, refused, unchanged, applied,
  apply_partner_event-Outcome,
}
use test_task_autumn.Order.Memory.Laws.{
  IsValid, IsFresh, create_order-IsValid, apply_partner_event-IsValid,
}

-- One call that may write: an order under an id that is new to the store, or a partner event.
pub data Step (s : Store) : Store → Type 0 where
  creates : (r : CreateOrderRecord) → IsFresh r s → Step s (create_order r s).1
  receives : (r : ApplyPartnerEventRecord) → Step s (apply_partner_event r s).1

pub data FreshReach (s : Store) : Store → Type 0 where
  here : FreshReach s s
  next : {t u : Store} → FreshReach s t → Step t u → FreshReach s u

pub FreshReach-IsValid : {s t : Store} → IsValid s → FreshReach s t → IsValid t
FreshReach-IsValid v here = v
FreshReach-IsValid v (next reach (creates r fresh)) =
    create_order-IsValid r _ fresh (FreshReach-IsValid v reach)
FreshReach-IsValid v (next reach (receives r)) =
    apply_partner_event-IsValid r _ (FreshReach-IsValid v reach)

-- The same snapshot, at a status that is no earlier.
pub record Evolves (o o' : Order) : Type 0 where
  pub id : o'.id ≡ o.id
  pub user_id : o'.user_id ≡ o.user_id
  pub restaurant_id : o'.restaurant_id ≡ o.restaurant_id
  pub items : o'.items ≡ o.items
  pub total_cents : o'.total_cents ≡ o.total_cents
  pub rank : rank o.status ≤ rank o'.status

pub Evolves-refl : (o : Order) → Evolves o o
Evolves-refl o = record {
  id = refl;
  user_id = refl;
  restaurant_id = refl;
  items = refl;
  total_cents = refl;
  rank = omega arith;
}

pub Evolves-moved : (o : Order) (to : Status) → Edge o.status to → Evolves o (moved o to)
Evolves-moved o to e = record {
  id = refl;
  user_id = refl;
  restaurant_id = refl;
  items = refl;
  total_cents = refl;
  rank = omega (arith, rank_of_transition o.status to ((can_transition_iff o.status to).1 e));
}

Evolves-trans : (a b c : Order) → Evolves a b → Evolves b c → Evolves a c
Evolves-trans a b c p q = ground arith

-- An order that is filed after a write of `o'` at its own id, where `o` stood.
evolve_filed :
    (s : Store) (r : ApplyPartnerEventRecord) (o o' p : Order) (id : String)
    → IsValid s
    → s.orders r.order_id ≡ some o
    → Evolves o o'
    → s.orders id ≡ some p
    → (p' : Order) × ((with_event s r o').orders id ≡ some p') × Evolves p p'
evolve_filed s r o o' p id v found ev filed = elim (Bool-cases (o'.id == id)) [
  | inl hit ↦
      let same : p ≡ o = ground (arith, eq_iff o'.id id, v.filed r.order_id o found, ev.id) in
      (o', rw hit, rw same ev)
  | inr miss ↦ (p, rw miss filed, Evolves-refl p)
]

event-Evolves :
    (r : ApplyPartnerEventRecord) (s : Store) (id : String) (p : Order)
    → IsValid s
    → s.orders id ≡ some p
    → Outcome r s (apply_partner_event r s)
    → (p' : Order) × ((apply_partner_event r s).1.orders id ≡ some p') × Evolves p p'
event-Evolves r s id p v filed (duplicate x o _ _ _ q) = rw q (p, filed, Evolves-refl p)
event-Evolves r s id p v filed (conflict x _ _ q) = rw q (p, filed, Evolves-refl p)
event-Evolves r s id p v filed (lost x _ _ _ q) = rw q (p, filed, Evolves-refl p)
event-Evolves r s id p v filed (unknown _ _ q) = rw q (p, filed, Evolves-refl p)
event-Evolves r s id p v filed (refused o _ _ _ _ q) = rw q (p, filed, Evolves-refl p)
event-Evolves r s id p v filed (unchanged o _ found _ q) =
    rw q (evolve_filed s r o o p id v found (Evolves-refl o) filed)
event-Evolves r s id p v filed (applied o _ found _ edge q) = rw q (
    evolve_filed s r o (moved o r.new_status) p id v found (Evolves-moved o r.new_status edge)
      filed)

create-Evolves :
    (r : CreateOrderRecord) (s : Store) (id : String) (p : Order)
    → IsFresh r s
    → s.orders id ≡ some p
    → (p' : Order) × ((create_order r s).1.orders id ≡ some p') × Evolves p p'
unfolding create_order
create-Evolves r s id p fresh filed = (p, ground (arith, eq_iff r.order.id id), Evolves-refl p)

-- Whatever such steps follow, a stored order stays stored, and only its status and version move on.
pub FreshReach-Evolves :
    {s t : Store} (id : String) (o : Order)
    → IsValid s
    → s.orders id ≡ some o
    → FreshReach s t
    → (o' : Order) × (t.orders id ≡ some o') × Evolves o o'
FreshReach-Evolves id o v filed here = (o, filed, Evolves-refl o)
FreshReach-Evolves id o v filed (next {t = t} reach (creates r fresh)) =
    let (p, at, ev) = FreshReach-Evolves id o v filed reach in
    let (p', at', ev') = create-Evolves r t id p fresh at in (p', at', Evolves-trans o p p' ev ev')
FreshReach-Evolves id o v filed (next {t = t} reach (receives r)) =
    let (p, at, ev) = FreshReach-Evolves id o v filed reach in
    let (p', at', ev') =
      event-Evolves r t id p (FreshReach-IsValid v reach) at (apply_partner_event-Outcome r t) in
    (p', at', Evolves-trans o p p' ev ev')

create_keeps_key :
    (r : CreateOrderRecord) (s : Store) (k : IdempotencyKey) (x : IdempotencyRecord)
    → s.idempotency k ≡ some x
    → (create_order r s).1.idempotency k ≡ some x
unfolding create_order
create_keeps_key r s k x h =
    ground (arith, eq_iff r.order.user_id k.user_id, eq_iff r.idempotency_key k.key)

event_keeps_key :
    (r : ApplyPartnerEventRecord) (s : Store) (k : IdempotencyKey)
    → (apply_partner_event r s).1.idempotency k ≡ s.idempotency k
unfolding apply_partner_event
event_keeps_key r s k = ground arith

-- An idempotency key, once on record, keeps its fingerprint and its order.
pub FreshReach-idempotency :
    {s t : Store} (k : IdempotencyKey) (x : IdempotencyRecord)
    → s.idempotency k ≡ some x
    → FreshReach s t
    → t.idempotency k ≡ some x
FreshReach-idempotency k x h here = h
FreshReach-idempotency k x h (next {t = t} reach (creates r fresh)) =
    create_keeps_key r t k x (FreshReach-idempotency k x h reach)
FreshReach-idempotency k x h (next {t = t} reach (receives r)) =
    event_keeps_key r t k ∙ FreshReach-idempotency k x h reach

create_keeps_event : (r : CreateOrderRecord) (s : Store) → (create_order r s).1.inbox ≡ s.inbox
unfolding create_order
create_keeps_event r s = ground arith

event_keeps_event :
    (r : ApplyPartnerEventRecord) (s : Store) (e : String) (x : InboxRecord)
    → s.inbox e ≡ some x
    → (apply_partner_event r s).1.inbox e ≡ some x
unfolding apply_partner_event
event_keeps_event r s e x h = ground (arith, eq_iff r.event_id e)

-- An event id, once on record, keeps its payload's fingerprint and its order.
pub FreshReach-inbox :
    {s t : Store} (e : String) (x : InboxRecord)
    → s.inbox e ≡ some x
    → FreshReach s t
    → t.inbox e ≡ some x
FreshReach-inbox e x h here = h
FreshReach-inbox e x h (next {t = t} reach (creates r fresh)) =
    ap (λ (m : Map String InboxRecord). m e) (create_keeps_event r t) ∙ FreshReach-inbox e x h reach
FreshReach-inbox e x h (next {t = t} reach (receives r)) =
    event_keeps_event r t e x (FreshReach-inbox e x h reach)

-- What a successful call has put on record, or found there.
create_order_bound :
    (r : CreateOrderRecord) (s : Store) (res : CreateOrderResult)
    → IsValid s
    → (create_order r s).0 ≡ ok res
    → (x : IdempotencyRecord) × ((create_order r s).1.idempotency (record_key r) ≡ some x)
      × (x.fingerprint ≡ r.request_fingerprint)
      × ((create_order r s).1.orders x.order_id ≡ some res.order)
unfolding create_order
create_order_bound r s res v h = elim (Option-cases (s.idempotency (record_key r))) [
  | inl absent ↦ (
    record { fingerprint = r.request_fingerprint; order_id = r.order.id },
    ground (arith, key_beq_iff (record_key r) (record_key r)),
    refl,
    ground (arith, eq_refl r.order.id),
  )
  | inr (x, e) ↦ (
    x,
    ground (arith, eq_iff x.fingerprint r.request_fingerprint),
    ground (arith, eq_iff x.fingerprint r.request_fingerprint),
    ground (arith, eq_iff x.fingerprint r.request_fingerprint, v.keyed (record_key r) x e),
  )
]

create_order_hit :
    (r : CreateOrderRecord) (s : Store) (x : IdempotencyRecord) (o : Order)
    → s.idempotency (record_key r) ≡ some x
    → x.fingerprint ≡ r.request_fingerprint
    → s.orders x.order_id ≡ some o
    → create_order r s ≡ (ok (record { order = o; reused_idempotency_key = true }), s)
unfolding create_order
create_order_hit r s x o h same filed = ground (arith, eq_iff x.fingerprint r.request_fingerprint)

-- A create call with the key and fingerprint of an earlier successful one, which met a store with the
-- invariant and an id that was new to it, finds the order of that one, as it has evolved, marked as
-- reused, and writes nothing, whatever partner events came between and whatever creates, each with an
-- order id that no order of the store it met had.
pub create_order_replayed :
    (r r' : CreateOrderRecord) (s t : Store) (res : CreateOrderResult)
    → IsValid s
    → IsFresh r s
    → (create_order r s).0 ≡ ok res
    → FreshReach (create_order r s).1 t
    → record_key r' ≡ record_key r
    → r'.request_fingerprint ≡ r.request_fingerprint
    → (o : Order) × Evolves res.order o
      × (create_order r' t ≡ (ok (record { order = o; reused_idempotency_key = true }), t))
create_order_replayed r r' s t res v fresh h reach same_key same_print =
    let (x, on_record, print, filed) = create_order_bound r s res v h in
    let (o, at, ev) =
      FreshReach-Evolves x.order_id res.order (create_order-IsValid r s fresh v) filed reach in
    let kept = FreshReach-idempotency (record_key r) x on_record reach in
    (o, ev, create_order_hit r' t x o (rw same_key kept) (print ∙ sym same_print) at)
