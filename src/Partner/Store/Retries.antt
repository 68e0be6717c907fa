-- ===== src/Partner/Store/Retries.antt =====
-- Redelivery of order.created.v1: a submission is made once, whatever fails.
use test_task_autumn.Prelude.{
  String, ◌≡◌, refl, ◌∙◌, ◌⊎◌, inl, inr, Option, none, some, List, [], ◌∷◌, arith, eq_refl, nat_eq,
  string_eq,
}
use test_task_autumn.Events.Contracts.{OrderCreated}
use test_task_autumn.Database.{Plan, transaction, ◌>>=◌}
use test_task_autumn.Database.Honest.{IsHonest, honest_rules, transaction-Settled}
use test_task_autumn.Partner.Errors.{database}
use test_task_autumn.Partner.Tables.{Tables, InboxRow}
use test_task_autumn.Partner.Intake.{ReceiveOrderRecord}
use test_task_autumn.Partner.Store.{
  inbox_row, receive_new, receive_existing, receive_found, receive_body, receive_order,
}

module _ (marshal : OrderCreated → Option String) where
  receive_new-IsHonest : (r : ReceiveOrderRecord) → IsHonest (receive_new marshal r)
  unfolding receive_new
  receive_new-IsHonest r = search honest_rules depth 12

  receive_found-IsHonest :
      (r : ReceiveOrderRecord) (found : Option InboxRow) → IsHonest (receive_found marshal r found)
  unfolding receive_existing
  receive_found-IsHonest r none = receive_new-IsHonest r
  receive_found-IsHonest r (some x) = search honest_rules

  receive_body-IsHonest : (r : ReceiveOrderRecord) → IsHonest (receive_body marshal r)
  unfolding receive_body
  receive_body-IsHonest r = search (honest_rules, receive_found-IsHonest) depth 7

  -- With the event on record under the same payload and order, no call writes anything.
  recorded_stays :
      (r : ReceiveOrderRecord) (t : Tables) (x : InboxRow)
      → t.inbox r.event_id ≡ some x
      → (receive_order marshal r [] t).2 ≡ t
  unfolding receive_order transaction ◌>>=◌
  recorded_stays r t x h = ground arith

  -- A call that reports success with no fault has put its event on record.
  first_records :
      (r : ReceiveOrderRecord) (t : Tables)
      → ((receive_order marshal r [] t).2 ≡ t)
        ⊎ ((receive_order marshal r [] t).2.inbox r.event_id ≡ some (inbox_row r))
  unfolding receive_order transaction ◌>>=◌
  first_records r t = ground (arith, eq_refl r.event_id)

  -- The tables after deliveries of one event: each takes a submission id of its own, and meets the
  -- faults of its own plan.
  unfoldable pub redelivered : ReceiveOrderRecord → List (String × Plan) → Tables → Tables
  redelivered r [] t = t
  redelivered r ((id, plan) ∷ rest) t =
      redelivered r rest (receive_order marshal (record r { submission_id = id }) plan t).2

  settles :
      (r : ReceiveOrderRecord) (plan : Plan) (t : Tables)
      → ((receive_order marshal r plan t).2 ≡ t)
        ⊎ ((receive_order marshal r plan t).2 ≡ (receive_order marshal r [] t).2)
  unfolding receive_order
  settles r plan t =
      elim (transaction-Settled database (receive_body marshal r) plan t
        (receive_body-IsHonest r)) [ inl (e, _) ↦ inl e | inr (e, _) ↦ inr e ]

  redelivered_stays :
      (r : ReceiveOrderRecord) (attempts : List (String × Plan)) (t : Tables) (x : InboxRow)
      → t.inbox r.event_id ≡ some x
      → redelivered r attempts t ≡ t
  unfolding redelivered
  redelivered_stays r [] t x h = refl
  redelivered_stays r ((id, plan) ∷ rest) t x h =
      let named : ReceiveOrderRecord = record r { submission_id = id } in
      let same : (receive_order marshal named plan t).2 ≡ t = elim (settles named plan t) [
        | inl e ↦ e
        | inr e ↦ e ∙ recorded_stays named t x h
      ] in
      rw same (redelivered_stays r rest t x h)

  -- However often an event is delivered, and whatever calls to the database fail or lose their reply,
  -- the tables are in the end as they were, or as a single delivery with no fault leaves them: there
  -- is never a second submission.
  pub receive_order_once :
      (r : ReceiveOrderRecord) (attempts : List (String × Plan)) (t : Tables)
      → (redelivered r attempts t ≡ t)
        ⊎ ((id : String) × (redelivered r attempts t
              ≡ (receive_order marshal (record r { submission_id = id }) [] t).2))
  unfolding redelivered
  receive_order_once r [] t = inl refl
  receive_order_once r ((id, plan) ∷ rest) t =
      let named : ReceiveOrderRecord = record r { submission_id = id } in
      elim (settles named plan t) [
        | inl e ↦ rw e (receive_order_once r rest t)
        | inr e ↦ elim (first_records named t) [
          | inl idle ↦ rw (e, idle) (receive_order_once r rest t)
          | inr recorded ↦ rw e (
              inr (
                id,
                redelivered_stays r rest (receive_order marshal named [] t).2 (inbox_row r)
                    recorded,
              ))
        ]
      ]
