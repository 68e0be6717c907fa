-- ===== src/Partner/Callbacks/Final.antt =====
-- Once a submission is accepted or rejected, no callback can change that.
use test_task_autumn.Prelude.{
  String, ◌≡◌, refl, sym, ap, ◌∙◌, inl, inr, Bool, true, false, ◌&&◌, Option, some, List, [], ◌∷◌,
  arith, eq_iff, ◌==◌, nat_eq, string_eq, Bool-cases,
}
use test_task_autumn.Events.Contracts.{OrderStatusChanged}
use test_task_autumn.Database.{Plan}
use test_task_autumn.Partner.Tables.{Tables, SubmissionRow}
use test_task_autumn.Partner.CallbackService.{ReceiveRecord}
use test_task_autumn.Partner.Callbacks.{
  submission_status, set_status, is_decided, receive_status_callback,
}
use test_task_autumn.Partner.Callbacks.Safety.{Accepts, accepts}
use test_task_autumn.Partner.Callbacks.Retries.{callback_writes}

abbrev pub same_target : OrderStatusChanged → OrderStatusChanged → Bool
same_target p q =
    p.order_id == q.order_id
    && p.restaurant_id == q.restaurant_id
    && p.external_store_id == q.external_store_id

status_same_target :
    (p q : OrderStatusChanged) (rows : List SubmissionRow)
    → same_target p q ≡ true
    → submission_status p rows ≡ submission_status q rows
unfolding submission_status
status_same_target p q [] h = refl
status_same_target p q (row ∷ rest) h = ground (
  arith,
  eq_iff p.order_id q.order_id,
  eq_iff p.restaurant_id q.restaurant_id,
  eq_iff p.external_store_id q.external_store_id,
  status_same_target p q rest,
)

status_set_other :
    (p q : OrderStatusChanged) (rows : List SubmissionRow)
    → same_target p q ≡ false
    → submission_status p (set_status q rows) ≡ submission_status p rows
unfolding submission_status set_status
status_set_other p q [] h = refl
status_set_other p q (row ∷ rest) h = ground (
  arith,
  eq_iff p.order_id q.order_id,
  eq_iff p.restaurant_id q.restaurant_id,
  eq_iff p.external_store_id q.external_store_id,
  eq_iff row.order_id p.order_id,
  eq_iff row.restaurant_id p.restaurant_id,
  eq_iff row.external_store_id p.external_store_id,
  eq_iff row.order_id q.order_id,
  eq_iff row.restaurant_id q.restaurant_id,
  eq_iff row.external_store_id q.external_store_id,
  status_set_other p q rest,
)

status_set_self :
    (q : OrderStatusChanged) (rows : List SubmissionRow) (s : String)
    → submission_status q rows ≡ some s
    → submission_status q (set_status q rows) ≡ some q.status
unfolding submission_status set_status
status_set_self q [] s h = cc
status_set_self q (row ∷ rest) s h = ground (arith, status_set_self q rest s)

accepted_keeps :
    (marshal : OrderStatusChanged → Option String) (r : ReceiveRecord) (p : OrderStatusChanged)
    (t t' : Tables) (s : String)
    → submission_status p t.submissions ≡ some s
    → is_decided s ≡ true
    → Accepts marshal r t t'
    → submission_status p t'.submissions ≡ some s
accepted_keeps marshal r p t t' s found decided (accepts status payload _ before allows _ e) =
    elim (Bool-cases (same_target p r.payload)) [
      | inr other ↦ rw e (status_set_other p r.payload t.submissions other ∙ found)
      | inl same ↦
          let equal : s ≡ status =
            cc (found, status_same_target p r.payload t.submissions same, before) in
          let kept : status ≡ r.payload.status = ground (arith, eq_iff status r.payload.status) in
          rw e (
            status_same_target p r.payload (set_status r.payload t.submissions) same
            ∙ status_set_self r.payload t.submissions status before
            ∙ ap some (sym kept ∙ sym equal))
    ]

-- A submission that is accepted or rejected keeps that status through any callback, from whatever
-- bearer and under any plan.
pub decision_final :
    (marshal : OrderStatusChanged → Option String) (r : ReceiveRecord) (plan : Plan) (t : Tables)
    (p : OrderStatusChanged) (s : String)
    → submission_status p t.submissions ≡ some s
    → is_decided s ≡ true
    → submission_status p (receive_status_callback marshal r plan t).2.submissions ≡ some s
decision_final marshal r plan t p s found decided = elim (callback_writes marshal r plan t) [
  | inl e ↦ rw e found
  | inr new ↦
      accepted_keeps marshal r p t (receive_status_callback marshal r plan t).2 s found decided new
]
