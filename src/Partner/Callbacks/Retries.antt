-- ===== src/Partner/Callbacks/Retries.antt =====
-- A restaurant may send a callback again after an unclear answer: it is taken once.
use test_task_autumn.Prelude.{
  String, ◌≡◌, refl, ◌⊎◌, inl, inr, Option, some, List, [], ◌∷◌, arith, eq_refl, nat_eq, string_eq,
}
use test_task_autumn.Events.Envelope.{Envelope}
use test_task_autumn.Events.Contracts.{OrderStatusChanged}
use test_task_autumn.Database.{Plan}
use test_task_autumn.Partner.Tables.{Tables, CallbackRow}
use test_task_autumn.Partner.CallbackService.{ReceiveRecord}
use test_task_autumn.Partner.Callbacks.{receive_status_callback, callback_row}
use test_task_autumn.Partner.Callbacks.Safety.{Accepts, accepts, settles, clean_writes}

-- Under any plan a callback leaves the tables alone, or it was let in and made its three writes: the
-- callback, the event and the status of the submission are written together, for a bearer whose
-- digest is that of the active integration, and never against an earlier decision.
pub callback_writes :
    (marshal : OrderStatusChanged → Option String) (r : ReceiveRecord) (plan : Plan) (t : Tables)
    → ((receive_status_callback marshal r plan t).2 ≡ t)
      ⊎ Accepts marshal r t (receive_status_callback marshal r plan t).2
callback_writes marshal r plan t = elim (settles marshal r plan t) [
  | inl e ↦ inl e
  | inr e ↦ rw e (clean_writes marshal r t)
]

module _ (marshal : OrderStatusChanged → Option String) where
  -- The tables after attempts at one callback: each takes an event of its own (`newID` and `now` are
  -- called each time), and meets the faults of its own plan.
  unfoldable pub resent : ReceiveRecord → List (Envelope × Plan) → Tables → Tables
  resent r [] t = t
  resent r ((event, plan) ∷ rest) t =
      resent r rest (receive_status_callback marshal (record r { outbox_event = event }) plan t).2

  repeat_stays :
      (r : ReceiveRecord) (plan : Plan) (t t' : Tables) (x : CallbackRow)
      → t.callbacks r.callback_id ≡ some x
      → ((t' ≡ t) ⊎ Accepts marshal r t t')
      → t' ≡ t
  repeat_stays r plan t t' x h (inl e) = e
  repeat_stays r plan t t' x h (inr (accepts _ _ _ _ _ absent _)) = cc

  resent_stays :
      (r : ReceiveRecord) (attempts : List (Envelope × Plan)) (t : Tables) (x : CallbackRow)
      → t.callbacks r.callback_id ≡ some x
      → resent r attempts t ≡ t
  unfolding resent
  resent_stays r [] t x h = refl
  resent_stays r ((event, plan) ∷ rest) t x h =
      let named : ReceiveRecord = record r { outbox_event = event } in
      rw
        (repeat_stays named plan t (receive_status_callback marshal named plan t).2 x h
          (callback_writes marshal named plan t))
        (resent_stays r rest t x h)

  recorded :
      (r : ReceiveRecord) (t t' : Tables)
      → Accepts marshal r t t'
      → (x : CallbackRow) × (t'.callbacks r.callback_id ≡ some x)
  recorded r t t' (accepts status payload _ _ _ _ e) =
      (callback_row r payload, rw e (ground (arith, eq_refl r.callback_id)))

  -- However often a callback is sent, and whatever calls to the database fail or lose their reply, the
  -- tables are in the end as they were, or as a single attempt with no fault leaves them: one
  -- callback gives at most one event.
  pub receive_status_callback_once :
      (r : ReceiveRecord) (attempts : List (Envelope × Plan)) (t : Tables)
      → (resent r attempts t ≡ t)
        ⊎ ((event : Envelope) × (resent r attempts t
              ≡ (receive_status_callback marshal (record r { outbox_event = event }) [] t).2))
  unfolding resent
  receive_status_callback_once r [] t = inl refl
  receive_status_callback_once r ((event, plan) ∷ rest) t =
      let named : ReceiveRecord = record r { outbox_event = event } in
      let clean = (receive_status_callback marshal named [] t).2 in
      elim (settles marshal named plan t) [
        | inl e ↦ rw e (receive_status_callback_once r rest t)
        | inr e ↦ elim (clean_writes marshal named t) [
          | inl idle ↦ rw (e, idle) (receive_status_callback_once r rest t)
          | inr new ↦
              let (x, on_record) = recorded named t clean new in
              rw e (inr (event, resent_stays r rest clean x on_record))
        ]
      ]
