-- ===== src/Order/Memory/Inbox.antt =====
-- What a partner event does to the store, on every branch.
use test_task_autumn.Prelude.{
  ◌≡◌, refl, ap, ◌≢◌, ◌⊎◌, inl, inr, true, false, none, some, eq_iff, ◌==◌, nat_eq, string_eq,
  Bool-cases, Option-cases, Result, ok, err,
}
use test_task_autumn.Order.Status.Edges.{Edge}
use test_task_autumn.Order.Errors.{
  Error, inbox_conflict, order_not_found, invalid_status_transition,
}
use test_task_autumn.Order.Domain.{Order, transition_to}
use test_task_autumn.Order.Domain.Lifecycle.{moved, transition_to_cases}
use test_task_autumn.Order.Service.Ports.{ApplyPartnerEventRecord, ApplyPartnerEventResult}
use test_task_autumn.Order.Memory.{
  Store, InboxRecord, with_event, apply_transition, apply_duplicate, apply_partner_event,
}

module _ (r : ApplyPartnerEventRecord) (s : Store) where
  -- The seven ways in which a call ends.
  pub data Outcome (out : Result Error ApplyPartnerEventResult × Store) : Type 0 where
    duplicate :
        (x : InboxRecord) (o : Order)
        → s.inbox r.event_id ≡ some x
        → x.fingerprint ≡ r.payload_fingerprint
        → s.orders x.order_id ≡ some o
        → out ≡ (ok (record { order = o; duplicate = true; changed = false }), s)
        → Outcome out
    conflict :
        (x : InboxRecord)
        → s.inbox r.event_id ≡ some x
        → x.fingerprint ≢ r.payload_fingerprint
        → out ≡ (err inbox_conflict, s)
        → Outcome out
    lost :
        (x : InboxRecord)
        → s.inbox r.event_id ≡ some x
        → x.fingerprint ≡ r.payload_fingerprint
        → s.orders x.order_id ≡ none
        → out ≡ (err order_not_found, s)
        → Outcome out
    unknown :
        s.inbox r.event_id ≡ none
        → s.orders r.order_id ≡ none
        → out ≡ (err order_not_found, s)
        → Outcome out
    refused :
        (o : Order)
        → s.inbox r.event_id ≡ none
        → s.orders r.order_id ≡ some o
        → o.status ≢ r.new_status
        → ¬ Edge o.status r.new_status
        → out ≡ (err (invalid_status_transition o.status r.new_status), s)
        → Outcome out
    unchanged :
        (o : Order)
        → s.inbox r.event_id ≡ none
        → s.orders r.order_id ≡ some o
        → o.status ≡ r.new_status
        → out ≡ (ok (record { order = o; duplicate = false; changed = false }), with_event s r o)
        → Outcome out
    applied :
        (o : Order)
        → s.inbox r.event_id ≡ none
        → s.orders r.order_id ≡ some o
        → o.status ≢ r.new_status
        → Edge o.status r.new_status
        → out ≡ (
          ok (record { order = moved o r.new_status; duplicate = false; changed = true }),
          with_event s r (moved o r.new_status),
        )
        → Outcome out

  recorded : (x : InboxRecord) → s.inbox r.event_id ≡ some x → Outcome (apply_duplicate s r x, s)
  recorded x e = elim (Bool-cases (x.fingerprint == r.payload_fingerprint)) [
    | inr differ ↦
        conflict x e (λ p. cc ((eq_iff x.fingerprint r.payload_fingerprint).1 p)) (rw differ)
    | inl same ↦
        let p = (eq_iff x.fingerprint r.payload_fingerprint).0 same in
        elim (Option-cases (s.orders x.order_id)) [
          | inl gone ↦ lost x e p gone (rw (same, gone))
          | inr (o, found) ↦ duplicate x o e p found (rw (same, found))
        ]
  ]

  fresh :
      (o : Order)
      → s.inbox r.event_id ≡ none
      → s.orders r.order_id ≡ some o
      → Outcome (apply_transition s r (transition_to o r.new_status))
  fresh o e found = elim (transition_to_cases o r.new_status) [
    | inl (same, t) ↦ unchanged o e found same (rw t)
    | inr (inl (differ, no_edge, t)) ↦ refused o e found differ no_edge (rw t)
    | inr (inr (differ, edge, t)) ↦ applied o e found differ edge (rw t)
  ]

  -- Every call ends in one of the seven ways: an event id on record with the same payload is a
  -- duplicate, with another payload a conflict; a new one moves the order along an edge of the graph
  -- and is written by `with_event`, is written with no change at the present status, and else is refused. No
  -- error writes to the store.
  pub apply_partner_event-Outcome : Outcome (apply_partner_event r s)
  unfolding apply_partner_event
  apply_partner_event-Outcome = elim (Option-cases (s.inbox r.event_id)) [
    | inr (x, e) ↦ rw (e, apply_partner_event) (recorded x e)
    | inl e ↦ elim (Option-cases (s.orders r.order_id)) [
      | inl gone ↦ unknown e gone (rw (e, gone, apply_partner_event))
      | inr (o, found) ↦ rw (e, found, apply_partner_event) (fresh o e found)
    ]
  ]

  -- A call leaves the store alone, or records the event and files the order again under its id.
  pub apply_partner_event_states :
      ((apply_partner_event r s).1 ≡ s)
      ⊎ ((o : Order) × (o' : Order) × (s.orders r.order_id ≡ some o)
          × (o'.id ≡ o.id)
          × (o'.user_id ≡ o.user_id)
          × ((apply_partner_event r s).1 ≡ with_event s r o'))
  apply_partner_event_states = states apply_partner_event-Outcome
    where
      states :
          Outcome (apply_partner_event r s)
          → ((apply_partner_event r s).1 ≡ s)
            ⊎ ((o : Order) × (o' : Order) × (s.orders r.order_id ≡ some o)
                × (o'.id ≡ o.id)
                × (o'.user_id ≡ o.user_id)
                × ((apply_partner_event r s).1 ≡ with_event s r o'))
      states (duplicate x o _ _ _ q) = inl (ap (λ p. p.1) q)
      states (conflict x _ _ q) = inl (ap (λ p. p.1) q)
      states (lost x _ _ _ q) = inl (ap (λ p. p.1) q)
      states (unknown _ _ q) = inl (ap (λ p. p.1) q)
      states (refused o _ _ _ _ q) = inl (ap (λ p. p.1) q)
      states (unchanged o _ found _ q) = inr (o, o, found, refl, refl, ap (λ p. p.1) q)
      states (applied o _ found _ _ q) =
          inr (o, moved o r.new_status, found, refl, refl, ap (λ p. p.1) q)
