-- ===== src/Partner/Submissions/Decided.antt =====
-- A dispatcher over the table of submissions keeps what is decided.
use test_task_autumn.Prelude.{
  ℕ, String, ◌≡◌, refl, sym, ap, ◌∙◌, ◌⊎◌, inl, inr, false, ◌||◌, Option, none, some, List, [], ◌∷◌,
  map, arith, leb, if◌then◌else◌, ◌==◌, nat_eq, string_eq, Bool-cases, Option-cases, contains,
  Result, ok, err,
}
use test_task_autumn.Database.{fine, fails, lost, Plan, execute, statement, throw, ◌>>=◌}
use test_task_autumn.Database.Frames.{transaction_frame, require_frame}
use test_task_autumn.Platform.Claims.{find, claim, update_where}
use test_task_autumn.Platform.Claims.Laws.{find-map}
use test_task_autumn.Partner.Tables.{SubmissionRow}
use test_task_autumn.Partner.Dispatch.{Submission, SendError, Sender, Store, mark, run}
use test_task_autumn.Partner.Dispatch.Frames.{IsKept, run-Keeps}
use test_task_autumn.Partner.Submissions.{
  SubmissionError, database, SubmissionConfig, Queue, row_id, lock_row, is_owned, submitted_row,
  failed_row, tick, claim_body, claim as claim_submissions, mark_owned, mark_submitted, mark_failed,
}

-- the status column of the row with this id
abbrev pub status_in : Option SubmissionRow → Option String
status_in none = none
status_in (some r) = some r.status

unfoldable pub status_of : Queue → String → Option String
unfolding find
status_of d i = status_in (find row_id i d.rows)

-- Between two states of the table, a submission that is not pending has kept its status.
abbrev Keeps : Queue → Queue → Type 0
Keeps d d' =
    (i s : String) → status_of d i ≡ some s → (s == "pending") ≡ false → status_of d' i ≡ some s

-- A statement that changes no id, and no status but "pending", keeps what is decided.
map-Keeps :
    (f : SubmissionRow → SubmissionRow) (d : Queue)
    → ((r : SubmissionRow) → (f r).id ≡ r.id)
    → ((r : SubmissionRow) → (r.status == "pending") ≡ false → (f r).status ≡ r.status)
    → Keeps d (tick d (map f d.rows))
unfolding status_of
map-Keeps f d same keep i s h other = elim (Option-cases (find row_id i d.rows)) [
  | inl e ↦ cc (e, h)
  | inr (r, e) ↦
      let old : some r.status ≡ some s = sym (ap status_in e) ∙ h in
      let status : r.status ≡ s = cc old in
      let new : (f r).status ≡ r.status = keep r (rw status other) in
      ap status_in (find-map row_id f i d.rows same) ∙ rw e (rw new old)
]

-- A mark leaves the table, or one with the owned row changed.
pub mark_owned_frame :
    (config : SubmissionConfig) (id : String) (change : ℕ → SubmissionRow → SubmissionRow)
    (plan : Plan) (d : Queue)
    → ((mark_owned config id change plan d).2 ≡ d)
      ⊎ ((mark_owned config id change plan d).2
          ≡ tick d (update_where row_id (is_owned config id) (change (d.clock 0)) d.rows))
unfolding mark_owned ◌>>=◌ execute
mark_owned_frame config id change [] d = inr (require_frame _ _ _ _)
mark_owned_frame config id change (fine ∷ plan) d = inr (require_frame _ _ _ _)
mark_owned_frame config id change (fails ∷ plan) d = inl refl
mark_owned_frame config id change (lost ∷ plan) d = inr refl

decided_not_owned :
    (config : SubmissionConfig) (id : String) (r : SubmissionRow)
    → (r.status == "pending") ≡ false
    → (x : SubmissionRow) → (if is_owned config id r then x else r).status ≡ r.status
unfolding is_owned
decided_not_owned config id r other x = elim (Bool-cases (is_owned config id r)) [
  | inl e ↦ absurd (ground arith)
  | inr e ↦ rw e
]

pub mark_owned-Keeps :
    (config : SubmissionConfig) (id : String) (change : ℕ → SubmissionRow → SubmissionRow)
    (plan : Plan) (d : Queue)
    → ((now : ℕ) (r : SubmissionRow) → (change now r).id ≡ r.id)
    → Keeps d (mark_owned config id change plan d).2
unfolding update_where is_owned
mark_owned-Keeps config id change plan d same = elim (mark_owned_frame config id change plan d) [
  | inl e ↦ rw e (λ i s h other. h)
  | inr e ↦ rw e (
      map-Keeps _ d
        (λ r. elim (Bool-cases (is_owned config id r)) [
          | inl e ↦ rw e (same (d.clock 0) r)
          | inr e ↦ rw e
        ])
        (λ r other. decided_not_owned config id r other (change (d.clock 0) r)))
]

pub locked :
    (config : SubmissionConfig) (now : ℕ) (chosen : List String) (r : SubmissionRow)
    → ((if contains chosen r.id then lock_row config now r else r).id ≡ r.id)
      × ((if contains chosen r.id then lock_row config now r else r).status ≡ r.status)
unfolding lock_row
locked config now chosen r = elim (Bool-cases (contains chosen r.id)) [
  | inl e ↦ (rw e, rw e)
  | inr e ↦ (rw e, rw e)
]

claim_body-Keeps :
    (jsonb : String → String) (config : SubmissionConfig) (limit : ℕ) (plan : Plan) (d : Queue)
    → Keeps d (claim_body jsonb config limit plan d).2
unfolding claim_body statement claim
claim_body-Keeps jsonb config limit [] d =
    map-Keeps _ d (λ r. (locked config (d.clock 0) _ r).0)
      (λ r other. (locked config (d.clock 0) _ r).1)
claim_body-Keeps jsonb config limit (fine ∷ plan) d =
    map-Keeps _ d (λ r. (locked config (d.clock 0) _ r).0)
      (λ r other. (locked config (d.clock 0) _ r).1)
claim_body-Keeps jsonb config limit (fails ∷ plan) d = λ i s h other. h
claim_body-Keeps jsonb config limit (lost ∷ plan) d = λ i s h other. h

-- A claim leaves the table, or what its body makes of it.
pub claim_frame :
    (jsonb : String → String) (config : SubmissionConfig) (limit : ℕ) (plan : Plan) (d : Queue)
    → ((claim_submissions jsonb config limit plan d).2 ≡ d)
      ⊎ ((plan' : Plan) × ((claim_submissions jsonb config limit plan d).2
            ≡ (claim_body jsonb config limit plan' d).2))
unfolding claim_submissions throw
claim_frame jsonb config limit plan d = elim (Bool-cases (limit == 0)) [
  | inl e ↦ inl (rw (e, claim_submissions) refl)
  | inr e ↦
      rw (e, claim_submissions) (transaction_frame database (claim_body jsonb config limit) plan d)
]

claim-Keeps :
    (jsonb : String → String) (config : SubmissionConfig) (limit : ℕ) (plan : Plan) (d : Queue)
    → Keeps d (claim_submissions jsonb config limit plan d).2
claim-Keeps jsonb config limit plan d i s h other = elim (claim_frame jsonb config limit plan d) [
  | inl e ↦ ap (λ x. status_of x i) e ∙ h
  | inr (plan', e) ↦
      ap (λ x. status_of x i) e ∙ claim_body-Keeps jsonb config limit plan' d i s h other
]

-- the table as the store of the dispatcher
unfoldable pub submission_store : (String → String) → SubmissionConfig → Store SubmissionError Queue
submission_store jsonb config = record {
  claim = claim_submissions jsonb config;
  mark_submitted = mark_submitted config;
  mark_failed = mark_failed config;
}

module _ {N : Type 0} (jsonb : String → String) (config : SubmissionConfig) (send : Sender N)
    (max_attempts : ℕ) where
  mark-Keeps :
      (s : Submission) (sent : Result SendError (Unit {0})) (plan : Plan) (d : Queue)
      → Keeps d (mark (submission_store jsonb config) send max_attempts s sent plan d).2
  unfolding submission_store mark_submitted mark_failed submitted_row failed_row
  mark-Keeps s (ok _) plan d = mark_owned-Keeps config s.id submitted_row plan d (λ now r. refl)
  mark-Keeps s (err e) plan d =
      mark_owned-Keeps config s.id
        (failed_row config e.message (e.is_permanent || leb max_attempts s.attempt)) plan d
        (λ now r. refl)

  Keeps-IsKept : IsKept (submission_store jsonb config) send max_attempts Keeps
  unfolding submission_store
  Keeps-IsKept = record {
    same = λ d i s h other. h;
    trans = λ d d' d'' p q i s h other. q i s (p i s h other) other;
    claims = claim-Keeps jsonb config;
    marks = λ s plan d n. mark-Keeps s (send s n).0 plan d;
  }

  -- However long the dispatcher runs over the table of submissions, whatever the restaurants answer and
  -- whatever statements fail or lose their reply: a submission with a status other than pending keeps
  -- that status.
  pub dispatch_keeps_decided :
      (batch polls : ℕ) (errors : List SubmissionError) (plan : Plan) (d : Queue) (n : N)
      (i s : String)
      → status_of d i ≡ some s
      → (s == "pending") ≡ false
      → status_of
          (run (submission_store jsonb config) send max_attempts batch polls errors plan d n).2
          i
        ≡ some s
  dispatch_keeps_decided batch polls errors plan d n i s h other =
      run-Keeps (submission_store jsonb config) send max_attempts Keeps Keeps-IsKept batch polls
        errors plan d n i s h other
