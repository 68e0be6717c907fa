-- ===== src/Order/Memory/Effects.antt =====
-- What a partner event leaves in each map of the store.
use test_task_autumn.Prelude.{
  String, ◌≡◌, refl, ◌∙◌, ◌≢◌, Bool, true, false, none, some, arith, eq_refl, ◌==◌, nat_eq,
  string_eq, Result, ok, err,
}
use test_task_autumn.Prelude.Words.{add64}
use test_task_autumn.Order.Status.Edges.{Edge}
use test_task_autumn.Order.Errors.{
  Error, inbox_conflict, order_not_found, invalid_status_transition,
}
use test_task_autumn.Order.Domain.{Order}
use test_task_autumn.Order.Domain.Lifecycle.{moved}
use test_task_autumn.Order.Service.Ports.{ApplyPartnerEventRecord, ApplyPartnerEventResult}
use test_task_autumn.Order.Memory.{Store, InboxRecord, apply_partner_event, with_event}
use test_task_autumn.Order.Memory.Inbox.{
  Outcome, duplicate, conflict, lost, unknown, refused, unchanged, applied,
  apply_partner_event-Outcome,
}
use test_task_autumn.Order.Memory.Laws.{IsValid}
use test_task_autumn.Order.Memory.Replay.{Evolves, Evolves-refl, Evolves-moved}

module _ (r : ApplyPartnerEventRecord) (s : Store) where
  -- The order `o` of the event has become `o'`: at the status of the event it stays as it is, and else
  -- moves along an edge of the graph to the next version.
  pub data Moves (o o' : Order) : Bool → Type 0 where
    stays : o.status ≡ r.new_status → o' ≡ o → Moves o o' false
    goes :
        o.status ≢ r.new_status
        → Edge o.status r.new_status
        → o'.version ≡ add64 o.version 1
        → Moves o o' true

  -- The store after an event that is new to it: the event is on record with its payload's fingerprint and
  -- its order, the order is filed as `o'`, and nothing else has changed.
  pub record Taken (t : Store) (o' : Order) (changed : Bool) : Type 0 where
    pub is_new : s.inbox r.event_id ≡ none
    pub before : Order
    pub found : s.orders r.order_id ≡ some before
    pub moves : Moves before o' changed
    pub evolves : Evolves before o'
    pub status : o'.status ≡ r.new_status
    pub event :
        t.inbox r.event_id
        ≡ some (record { fingerprint = r.payload_fingerprint; order_id = r.order_id })
    pub order : t.orders r.order_id ≡ some o'
    pub other_events : (e : String) → (r.event_id == e) ≡ false → t.inbox e ≡ s.inbox e
    pub other_orders : (id : String) → (r.order_id == id) ≡ false → t.orders id ≡ s.orders id
    pub keys : t.idempotency ≡ s.idempotency
    pub outbox : t.outbox ≡ s.outbox

  -- Why a call is refused: the event is on record with another payload, or it is new and its order is not
  -- stored, or at a status with no edge to that of the event.
  pub data IsRefused (e : Error) : Type 0 where
    reused_id :
        (x : InboxRecord)
        → s.inbox r.event_id ≡ some x
        → x.fingerprint ≢ r.payload_fingerprint
        → e ≡ inbox_conflict
        → IsRefused e
    no_order :
        s.inbox r.event_id ≡ none → s.orders r.order_id ≡ none → e ≡ order_not_found → IsRefused e
    no_edge :
        (o : Order)
        → s.inbox r.event_id ≡ none
        → s.orders r.order_id ≡ some o
        → o.status ≢ r.new_status
        → ¬ Edge o.status r.new_status
        → e ≡ invalid_status_transition o.status r.new_status
        → IsRefused e

  -- The result and the store after a call.
  pub data Effect (out : Result Error ApplyPartnerEventResult × Store) : Type 0 where
    refuses : (e : Error) → IsRefused e → out ≡ (err e, s) → Effect out
    repeats :
        (x : InboxRecord) (o : Order)
        → s.inbox r.event_id ≡ some x
        → x.fingerprint ≡ r.payload_fingerprint
        → s.orders x.order_id ≡ some o
        → out ≡ (ok (record { order = o; duplicate = true; changed = false }), s)
        → Effect out
    takes :
        (o : Order) (changed : Bool)
        → out.0 ≡ ok (record { order = o; duplicate = false; changed = changed })
        → Taken out.1 o changed
        → Effect out

  taken :
      (o o' : Order) (changed : Bool)
      → IsValid s
      → s.inbox r.event_id ≡ none
      → s.orders r.order_id ≡ some o
      → Moves o o' changed
      → Evolves o o'
      → o'.status ≡ r.new_status
      → Taken (with_event s r o') o' changed
  taken o o' changed v new found moves evolves status =
      let id : o'.id ≡ r.order_id = evolves.id ∙ v.filed r.order_id o found in
      record {
        is_new = new;
        before = o;
        found = found;
        moves = moves;
        evolves = evolves;
        status = status;
        event = rw id (ground (arith, eq_refl r.event_id));
        order = rw id (ground (arith, eq_refl r.order_id));
        other_events = λ e h. rw h;
        other_orders = λ x h. rw (id, h) refl;
        keys = refl;
        outbox = refl;
      }

  effect :
      (out : Result Error ApplyPartnerEventResult × Store)
      → IsValid s
      → Outcome r s out
      → Effect out
  effect out v (duplicate x o e print filed q) = repeats x o e print filed q
  effect out v (conflict x e differ q) = refuses _ (reused_id x e differ refl) q
  effect out v (lost x e print gone q) = absurd (ground (arith, v.received r.event_id x e))
  effect out v (unknown e gone q) = refuses _ (no_order e gone refl) q
  effect out v (refused o e found differ absent q) =
      refuses _ (no_edge o e found differ absent refl) q
  effect out v (unchanged o e found same q) =
      rw q (takes o false refl (taken o o false v e found (stays same refl) (Evolves-refl o) same))
  effect out v (applied o e found differ edge q) =
      let o' = moved o r.new_status in
      rw q (
        takes o' true refl (
          taken o o' true v e found (goes differ edge refl) (Evolves-moved o r.new_status edge)
            refl))

  -- On a store with the invariant, a partner event is refused, for one of three reasons and with the error
  -- of that reason: it is on record with another payload, it is new and its order is not stored, or the
  -- graph has no edge to its status. Or it is on record with the same payload, and the stored order is
  -- reported. Both leave the store alone. Or it is new and taken: it is put on record with its fingerprint
  -- and its order, the order is filed at the status of the event, at the next version if that is another
  -- status, and the other events and orders, the keys and the outbox stay as they are.
  pub apply_partner_event-Effect : IsValid s → Effect (apply_partner_event r s)
  apply_partner_event-Effect v = effect _ v (apply_partner_event-Outcome r s)
