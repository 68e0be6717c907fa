-- ===== src/Partner/Callbacks/Safety.antt =====
-- Who may decide an order, and that a decision is final.
use test_task_autumn.Prelude.{
  String, ◌≡◌, ap, ◌∙◌, ◌⊎◌, inl, inr, false, ◌&&◌, Option, none, some, [], ◌∷◌, ◌++◌, eq_iff, ◌==◌,
  ◌!=◌, nat_eq, string_eq, Bool-cases, Option-cases, insert, ok, err,
}
use test_task_autumn.Events.Contracts.{OrderStatusChanged}
use test_task_autumn.Database.{Plan, transaction, ◌>>=◌}
use test_task_autumn.Database.Honest.{IsHonest, honest_rules, transaction-Settled}
use test_task_autumn.Partner.Errors.{
  Error, unauthorized_callback, callback_conflict, encoding, database,
}
use test_task_autumn.Partner.Tables.{Tables, CallbackRow, has_event}
use test_task_autumn.Partner.CallbackService.{ReceiveRecord}
use test_task_autumn.Partner.Callbacks.{
  stored_digest, submission_status, set_status, authorize_callback, authorize_callback_submission,
  is_decided, callback_row, is_repeat, receive_new, receive_found, receive_body,
  receive_status_callback,
}

module _ (marshal : OrderStatusChanged → Option String) (r : ReceiveRecord) where
  receive_new-IsHonest : IsHonest (receive_new marshal r)
  unfolding receive_new
  receive_new-IsHonest = search honest_rules depth 14

  receive_found-IsHonest : (found : Option CallbackRow) → IsHonest (receive_found marshal r found)
  receive_found-IsHonest none = receive_new-IsHonest
  receive_found-IsHonest (some x) = search honest_rules

  authorize_callback-IsHonest : IsHonest (authorize_callback r)
  unfolding authorize_callback
  authorize_callback-IsHonest = search honest_rules depth 8

  authorize_callback_submission-IsHonest : IsHonest (authorize_callback_submission r)
  unfolding authorize_callback_submission
  authorize_callback_submission-IsHonest = search honest_rules depth 8

  receive_body-IsHonest : IsHonest (receive_body marshal r)
  unfolding receive_body
  receive_body-IsHonest =
      search
        (
          honest_rules, receive_found-IsHonest, authorize_callback-IsHonest,
          authorize_callback_submission-IsHonest,
        )
        depth 9

  -- Under any plan the tables stay as they are, or become those of a call with no fault.
  pub settles :
      (plan : Plan) (t : Tables)
      → ((receive_status_callback marshal r plan t).2 ≡ t)
        ⊎ ((receive_status_callback marshal r plan t).2
            ≡ (receive_status_callback marshal r [] t).2)
  unfolding receive_status_callback
  settles plan t =
      elim (transaction-Settled database (receive_body marshal r) plan t receive_body-IsHonest) [
        | inl (e, _) ↦ inl e
        | inr (e, _) ↦ inr e
      ]

  -- The three writes of a new callback.
  abbrev pub written : Tables → String → Tables
  written t payload = record t {
    callbacks = insert t.callbacks r.callback_id (callback_row r payload);
    outbox = t.outbox ++ r.outbox_event ∷ [];
    submissions = set_status r.payload t.submissions;
  }

  -- A callback that was let in, and what it wrote: the bearer's digest is that of the active integration
  -- of the restaurant and store, the submission exists, and it is undecided or has the same status.
  pub data Accepts (t t' : Tables) : Type 0 where
    accepts :
        (status payload : String)
        → stored_digest r.payload t ≡ some r.token_digest
        → submission_status r.payload t.submissions ≡ some status
        → (is_decided status && status != r.payload.status) ≡ false
        → t.callbacks r.callback_id ≡ none
        → t' ≡ written t payload
        → Accepts t t'

  authorize_cases :
      (t : Tables)
      → ((stored_digest r.payload t ≡ some r.token_digest)
          × (authorize_callback r [] t ≡ (ok tt, [], t)))
        ⊎ ((e : Error) × (authorize_callback r [] t ≡ (err e, [], t)))
  unfolding authorize_callback ◌>>=◌
  authorize_cases t = elim (Option-cases (stored_digest r.payload t)) [
    | inl e ↦ inr (unauthorized_callback, rw e)
    | inr (digest, e) ↦ elim (Bool-cases (digest == r.token_digest)) [
      | inl same ↦ inl (e ∙ ap some ((eq_iff digest r.token_digest).0 same), rw (e, same))
      | inr differ ↦ inr (unauthorized_callback, rw (e, differ))
    ]
  ]

  submission_cases :
      (t : Tables)
      → ((status : String) × (submission_status r.payload t.submissions ≡ some status)
          × ((is_decided status && status != r.payload.status) ≡ false)
          × (authorize_callback_submission r [] t ≡ (ok tt, [], t)))
        ⊎ ((e : Error) × (authorize_callback_submission r [] t ≡ (err e, [], t)))
  unfolding authorize_callback_submission ◌>>=◌
  submission_cases t = elim (Option-cases (submission_status r.payload t.submissions)) [
    | inl e ↦ inr (unauthorized_callback, rw e)
    | inr (status, e) ↦ elim (Bool-cases (is_decided status && status != r.payload.status)) [
      | inl other ↦ inr (callback_conflict, rw (e, other))
      | inr same ↦ inl (status, e, same, rw (e, same))
    ]
  ]

  new_cases :
      (t : Tables)
      → t.callbacks r.callback_id ≡ none
      → ((payload : String) × (receive_new marshal r [] t
            ≡ (ok (record { duplicate = false }), [], written t payload)))
        ⊎ ((e : Error) × (t' : Tables) × (receive_new marshal r [] t ≡ (err e, [], t')))
  unfolding receive_new ◌>>=◌
  new_cases t absent = elim (Option-cases (marshal r.payload)) [
    | inl e ↦ inr (encoding, t, rw e)
    | inr (payload, e) ↦ elim (Bool-cases (has_event r.outbox_event.event_id t.outbox)) [
      | inl taken ↦ inr (
        database,
        record t { callbacks = insert t.callbacks r.callback_id (callback_row r payload) },
        rw (e, absent, taken),
      )
      | inr free ↦ inl (payload, rw (e, absent, free))
    ]
  ]

  -- A callback with no fault changes nothing, or it was let in and made its three writes.
  pub clean_writes :
      (t : Tables)
      → ((receive_status_callback marshal r [] t).2 ≡ t)
        ⊎ Accepts t (receive_status_callback marshal r [] t).2
  unfolding receive_status_callback transaction ◌>>=◌
  clean_writes t = elim (authorize_cases t) [
    | inr (x, e) ↦ inl (rw (e, receive_status_callback))
    | inl (digest, e) ↦ elim (submission_cases t) [
      | inr (x, e') ↦ inl (rw (e, receive_status_callback, e'))
      | inl (status, found, open_or_same, e') ↦ elim (Option-cases (t.callbacks r.callback_id)) [
        | inr (x, old) ↦ elim (Bool-cases (is_repeat r x)) [
          | inl same ↦ inl (rw (e, receive_status_callback, e', old, same))
          | inr differ ↦ inl (rw (e, receive_status_callback, e', old, differ))
        ]
        | inl absent ↦ elim (new_cases t absent) [
          | inr (x, t', e'') ↦ inl (rw (e, receive_status_callback, e', absent, e''))
          | inl (payload, e'') ↦ inr (
              accepts status payload digest found open_or_same absent
                (rw (e, receive_status_callback, e', absent, e'')))
        ]
      ]
    ]
  ]
