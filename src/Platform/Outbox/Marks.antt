-- ===== src/Platform/Outbox/Marks.antt =====
-- The outbox of the order service has the laws that the relay relies on.
use test_task_autumn.Prelude.{
  ℕ, String, ◌≡◌, refl, sym, ap, ◌∙◌, ◌⊎◌, inl, inr, Bool, true, false, ◌&&◌, ◌||◌, none, some,
  List, [], ◌∷◌, map, arith, eq_iff, if◌then◌else◌, ◌==◌, nat_eq, string_eq, Bool-cases, contains,
}
use test_task_autumn.Events.Envelope.{Time}
use test_task_autumn.Database.{fine, fails, lost, Plan, statement, execute, throw, ◌>>=◌}
use test_task_autumn.Database.Frames.{transaction_frame, require_frame}
use test_task_autumn.Platform.Claims.{claim, update_where}
use test_task_autumn.Platform.Relay.{Store}
use test_task_autumn.Platform.Outbox.{
  OutboxError, claim as claim_messages, database, OutboxConfig, Row, Outbox, event_id, lock_row,
  is_owned, published_row, failed_row, tick, claim_body, mark_owned, mark_published, mark_failed,
}

-- Some row of this event has a time of publication.
unfoldable pub is_marked : List Row → String → Bool
is_marked [] i = false
is_marked (r ∷ rs) i =
    (event_id r == i && elim r.published_at [ none ↦ false | some _ ↦ true ]) || is_marked rs i

is_marked-map :
    (f : Row → Row) (rows : List Row) (i : String)
    → ((r : Row) → event_id (f r) ≡ event_id r)
    → ((r : Row) → (f r).published_at ≡ r.published_at)
    → is_marked (map f rows) i ≡ is_marked rows i
unfolding is_marked
is_marked-map f [] i same keep = refl
is_marked-map f (r ∷ rs) i same keep = rw (same r, keep r, is_marked-map f rs i same keep)

published_keeps :
    (config : OutboxConfig) (now : ℕ) (event i : String) (rows : List Row)
    → is_marked rows i ≡ true
    → is_marked (update_where event_id (is_owned config event) (published_row now) rows) i ≡ true
unfolding is_marked update_where published_row
published_keeps config now event i [] h = h
published_keeps config now event i (r ∷ rs) h =
    ground (arith, published_keeps config now event i rs)

published_marks_one :
    (config : OutboxConfig) (now : ℕ) (event i : String) (rows : List Row)
    → is_marked (update_where event_id (is_owned config event) (published_row now) rows) i ≡ true
    → (is_marked rows i ≡ true) ⊎ (event ≡ i)
unfolding is_marked update_where published_row is_owned
published_marks_one config now event i [] h = inl h
published_marks_one config now event i (r ∷ rs) h = ground (
  arith,
  published_marks_one config now event i rs,
  eq_iff (event_id r) event,
  eq_iff (event_id r) i,
)

-- A mark leaves the table, or one with the owned rows of the event changed.
mark_owned_frame :
    (config : OutboxConfig) (event : String) (change : ℕ → Row → Row) (plan : Plan) (d : Outbox)
    → ((mark_owned config event change plan d).2 ≡ d)
      ⊎ ((mark_owned config event change plan d).2
          ≡ tick d (update_where event_id (is_owned config event) (change (d.clock 0)) d.rows))
unfolding mark_owned ◌>>=◌ execute
mark_owned_frame config event change [] d = inr (require_frame _ _ _ _)
mark_owned_frame config event change (fine ∷ plan) d = inr (require_frame _ _ _ _)
mark_owned_frame config event change (fails ∷ plan) d = inl refl
mark_owned_frame config event change (lost ∷ plan) d = inr refl

failed_row_marks :
    (config : OutboxConfig) (event cause : String) (now : ℕ) (rows : List Row) (i : String)
    → is_marked (update_where event_id (is_owned config event) (failed_row config cause now) rows) i
      ≡ is_marked rows i
unfolding update_where failed_row
failed_row_marks config event cause now rows i =
    is_marked-map _ rows i
      (λ r. elim (Bool-cases (is_owned config event r)) [ inl e ↦ rw e | inr e ↦ rw e ])
      (λ r. elim (Bool-cases (is_owned config event r)) [ inl e ↦ rw e | inr e ↦ rw e ])

pub mark_failed_marks :
    (config : OutboxConfig) (event cause : String) (plan : Plan) (d : Outbox) (i : String)
    → is_marked (mark_failed config event cause plan d).2.rows i ≡ is_marked d.rows i
unfolding mark_failed
mark_failed_marks config event cause plan d i =
    elim (mark_owned_frame config event (failed_row config cause) plan d) [
      | inl e ↦ rw e
      | inr e ↦ rw e (failed_row_marks config event cause (d.clock 0) d.rows i)
    ]

pub mark_published_keeps :
    (config : OutboxConfig) (event : String) (plan : Plan) (d : Outbox) (i : String)
    → is_marked d.rows i ≡ true
    → is_marked (mark_published config event plan d).2.rows i ≡ true
unfolding mark_published
mark_published_keeps config event plan d i h =
    elim (mark_owned_frame config event published_row plan d) [
      | inl e ↦ rw e h
      | inr e ↦ rw e (published_keeps config (d.clock 0) event i d.rows h)
    ]

pub mark_published_marks_one :
    (config : OutboxConfig) (event : String) (plan : Plan) (d : Outbox) (i : String)
    → is_marked (mark_published config event plan d).2.rows i ≡ true
    → (is_marked d.rows i ≡ true) ⊎ (event ≡ i)
unfolding mark_published
mark_published_marks_one config event plan d i h =
    elim (mark_owned_frame config event published_row plan d) [
      | inl e ↦ inl (sym (ap (λ x. is_marked x.rows i) e) ∙ h)
      | inr e ↦
          published_marks_one config (d.clock 0) event i d.rows
            (sym (ap (λ x. is_marked x.rows i) e) ∙ h)
    ]

module _ (jsonb : String → String) (format : Time → String) (config : OutboxConfig) where
  lock_marks :
      (chosen : List String) (now : ℕ) (rows : List Row) (i : String)
      → is_marked
          (map (λ r. if contains chosen (event_id r) then lock_row config now r else r) rows)
          i
        ≡ is_marked rows i
  unfolding lock_row
  lock_marks chosen now rows i =
      is_marked-map _ rows i
        (λ r. elim (Bool-cases (contains chosen (event_id r))) [ inl e ↦ rw e | inr e ↦ rw e ])
        (λ r. elim (Bool-cases (contains chosen (event_id r))) [ inl e ↦ rw e | inr e ↦ rw e ])

  claim_body_marks :
      (limit : ℕ) (plan : Plan) (d : Outbox) (i : String)
      → is_marked (claim_body jsonb format config limit plan d).2.rows i ≡ is_marked d.rows i
  unfolding claim_body statement claim
  claim_body_marks limit [] d i = lock_marks _ (d.clock 0) d.rows i
  claim_body_marks limit (fine ∷ plan) d i = lock_marks _ (d.clock 0) d.rows i
  claim_body_marks limit (fails ∷ plan) d i = refl
  claim_body_marks limit (lost ∷ plan) d i = refl

  pub claim_marks :
      (limit : ℕ) (plan : Plan) (d : Outbox) (i : String)
      → is_marked (claim_messages jsonb format config limit plan d).2.rows i ≡ is_marked d.rows i
  unfolding claim_messages throw
  claim_marks limit plan d i = elim (Bool-cases (limit == 0)) [
    | inl e ↦ rw (e, claim_messages) refl
    | inr e ↦
        rw (e, claim_messages)
          (elim (transaction_frame database (claim_body jsonb format config limit) plan d) [
            | inl e ↦ ap (λ x. is_marked x.rows i) e
            | inr (plan', e) ↦ ap (λ x. is_marked x.rows i) e ∙ claim_body_marks limit plan' d i
          ])
  ]

  -- the outbox as the store of the relay
  unfoldable pub outbox_store : Store OutboxError Outbox
  outbox_store = record {
    claim = claim_messages jsonb format config;
    mark_published = mark_published config;
    mark_failed = mark_failed config;
    is_published = λ d. is_marked d.rows;
    claim_marks_none = claim_marks;
    mark_failed_marks_none = mark_failed_marks config;
    mark_published_keeps = mark_published_keeps config;
    mark_published_marks_one = mark_published_marks_one config;
  }
