-- ===== src/Order/Memory/Once.antt =====
-- A partner event takes effect once, and the outbox has one event for each new order.
use test_task_autumn.Prelude.{
  ◌≡◌, refl, ap, ◌≢◌, ◌⊎◌, inl, inr, true, false, none, some, List, [], ◌∷◌, ◌++◌, arith, eq_refl,
  if◌then◌else◌, ◌==◌, nat_eq, string_eq, Option-cases, Result, ok, err,
}
use test_task_autumn.Events.Envelope.{Envelope}
use test_task_autumn.Order.Errors.{Error, inbox_conflict}
use test_task_autumn.Order.Domain.{Order}
use test_task_autumn.Order.Domain.Lifecycle.{moved}
use test_task_autumn.Order.Service.Ports.{
  CreateOrderRecord, CreateOrderResult, ApplyPartnerEventRecord, ApplyPartnerEventResult,
}
use test_task_autumn.Order.Memory.{
  Store, InboxRecord, record_key, create_order, apply_partner_event, with_event,
}
use test_task_autumn.Order.Memory.Inbox.{
  Outcome, duplicate, conflict, lost, unknown, refused, unchanged, applied,
  apply_partner_event-Outcome,
}
use test_task_autumn.Order.Memory.Laws.{IsValid, apply_partner_event-IsValid}
use test_task_autumn.Order.Memory.Replay.{FreshReach, FreshReach-Evolves, FreshReach-inbox, Evolves}

-- What the inbox holds for the event after a successful call.
abbrev Recorded : ApplyPartnerEventRecord → Store → Order → Type 0
Recorded r s o =
    (x : InboxRecord) × (s.inbox r.event_id ≡ some x)
    × (x.fingerprint ≡ r.payload_fingerprint)
    × (s.orders x.order_id ≡ some o)

with_event-Recorded :
    (r : ApplyPartnerEventRecord) (s : Store) (o : Order) → Recorded r (with_event s r o) o
with_event-Recorded r s o = (
  record { fingerprint = r.payload_fingerprint; order_id = o.id },
  ground (arith, eq_refl r.event_id),
  refl,
  ground (arith, eq_refl o.id),
)

Outcome-Recorded :
    (r : ApplyPartnerEventRecord) (s : Store) (res : ApplyPartnerEventResult)
    → Outcome r s (apply_partner_event r s)
    → (apply_partner_event r s).0 ≡ ok res
    → Recorded r (apply_partner_event r s).1 res.order
Outcome-Recorded r s res (duplicate x o e print filed q) h =
    let same : o ≡ res.order = cc (ap (λ p. p.0) q) in rw (q, ← same) (x, e, print, filed)
Outcome-Recorded r s res (conflict _ _ _ q) h = cc (ap (λ p. p.0) q)
Outcome-Recorded r s res (lost _ _ _ _ q) h = cc (ap (λ p. p.0) q)
Outcome-Recorded r s res (unknown _ _ q) h = cc (ap (λ p. p.0) q)
Outcome-Recorded r s res (refused _ _ _ _ _ q) h = cc (ap (λ p. p.0) q)
Outcome-Recorded r s res (unchanged o _ _ _ q) h =
    let same : o ≡ res.order = cc (ap (λ p. p.0) q) in rw (q, ← same) (with_event-Recorded r s o)
Outcome-Recorded r s res (applied o _ _ _ _ q) h =
    let same : moved o r.new_status ≡ res.order = cc (ap (λ p. p.0) q) in
    rw (q, ← same) (with_event-Recorded r s (moved o r.new_status))

repeated :
    (r : ApplyPartnerEventRecord) (t : Store) (x : InboxRecord) (o : Order)
    → t.inbox r.event_id ≡ some x
    → t.orders x.order_id ≡ some o
    → apply_partner_event r t ≡ (
      (if x.fingerprint == r.payload_fingerprint
          then ok (record { order = o; duplicate = true; changed = false })
          else err inbox_conflict),
      t,
    )
unfolding apply_partner_event
repeated r t x o h filed = ground arith

-- After a call that succeeded on a store with the invariant, whatever partner events follow and whatever
-- creates, each with an order id that no order of the store it meets has: a call with the same event id
-- changes nothing. With the same payload it reports a duplicate and the order as it has evolved, with
-- another payload a conflict.
pub apply_partner_event_once :
    (r r' : ApplyPartnerEventRecord) (s t : Store) (res : ApplyPartnerEventResult)
    → IsValid s
    → (apply_partner_event r s).0 ≡ ok res
    → FreshReach (apply_partner_event r s).1 t
    → r'.event_id ≡ r.event_id
    → (o : Order) × Evolves res.order o
      × (apply_partner_event r' t ≡ (
        (if r.payload_fingerprint == r'.payload_fingerprint
            then ok (record { order = o; duplicate = true; changed = false })
            else err inbox_conflict),
        t,
      ))
apply_partner_event_once r r' s t res v h reach same =
    let (x, on_record, print, filed) =
      Outcome-Recorded r s res (apply_partner_event-Outcome r s) h in
    let (o, at, ev) =
      FreshReach-Evolves x.order_id res.order (apply_partner_event-IsValid r s v) filed reach in
    let kept = FreshReach-inbox r.event_id x on_record reach in
    (o, ev, rw (← print) (repeated r' t x o (rw same kept) at))

event_keeps_outbox :
    (r : ApplyPartnerEventRecord) (s : Store) → (apply_partner_event r s).1.outbox ≡ s.outbox
unfolding apply_partner_event
event_keeps_outbox r s = ground arith

-- The events that a call has added to the outbox.
abbrev pub added : Result Error CreateOrderResult → CreateOrderRecord → List Envelope
added (ok res) r = if res.reused_idempotency_key then [] else r.outbox_event ∷ []
added (err e) r = []

-- The order and its event are written together or not at all. Where the key is new to the store, the
-- call stores the order, adds its event to the end of the outbox and reports a new order; where it
-- is not, the call leaves the store alone and reports no new order.
pub create_order_outbox :
    (r : CreateOrderRecord) (s : Store)
    → (((create_order r s).0 ≡ ok (record { order = r.order; reused_idempotency_key = false }))
        × ((create_order r s).1.outbox ≡ s.outbox ++ r.outbox_event ∷ [])
        × ((create_order r s).1.orders r.order.id ≡ some r.order)
        × (s.idempotency (record_key r) ≡ none))
      ⊎ (((create_order r s).1 ≡ s)
          × (added (create_order r s).0 r ≡ [])
          × (s.idempotency (record_key r) ≢ none))
unfolding create_order
create_order_outbox r s = elim (Option-cases (s.idempotency (record_key r))) [
  | inl absent ↦ inl (ground (arith, eq_refl r.order.id))
  | inr (x, e) ↦ inr (ground arith)
]
