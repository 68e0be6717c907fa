-- ===== src/Partner/Submissions/Sent.antt =====
-- A dispatcher marks as submitted only what was sent.
use test_task_autumn.Prelude.{
  ℕ, String, ◌≡◌, refl, sym, ap, ◌∙◌, inl, inr, Bool, true, false, ◌||◌, some, List, [], ◌∷◌, map,
  arith, eq_iff, leb, ◌==◌, nat_eq, string_eq, Bool-cases, Option-cases, Result, ok, err,
}
use test_task_autumn.Database.{fine, fails, lost, Plan, statement}
use test_task_autumn.Platform.Claims.{find, claim, update_where}
use test_task_autumn.Platform.Claims.Laws.{find-map, find_id}
use test_task_autumn.Partner.Tables.{SubmissionRow}
use test_task_autumn.Partner.Dispatch.{Submission, SendError, Sender, mark, run}
use test_task_autumn.Partner.Dispatch.Frames.{run-Keeps}
use test_task_autumn.Partner.Submissions.{
  SubmissionError, SubmissionConfig, Queue, row_id, is_owned, submitted_row, failed_row, tick,
  in_order, claim_body, claim as claim_submissions, mark_owned, mark_submitted, mark_failed,
}
use test_task_autumn.Partner.Submissions.Decided.{
  status_in, status_of, mark_owned_frame, locked, claim_frame, submission_store,
}

module _ (i : String) where
  -- Between two states of the table, the submission has not become a submitted one.
  abbrev IsUnsent : Queue → Queue → Type 0
  IsUnsent d d' = status_of d' i ≡ some "submitted" → status_of d i ≡ some "submitted"

  map-IsUnsent :
      (f : SubmissionRow → SubmissionRow) (d : Queue)
      → ((r : SubmissionRow) → (f r).id ≡ r.id)
      → ((r : SubmissionRow) → r.id ≡ i → (f r).status ≡ "submitted" → r.status ≡ "submitted")
      → IsUnsent d (tick d (map f d.rows))
  unfolding status_of
  map-IsUnsent f d same back h =
      let e = ap status_in (find-map row_id f i d.rows same) in
      elim (Option-cases (find row_id i d.rows)) [
        | inl gone ↦ cc (e, gone, h)
        | inr (r, found) ↦
            let new : some (f r).status ≡ some "submitted" = sym (e ∙ rw found refl) ∙ h in
            let status : (f r).status ≡ "submitted" = cc new in
            rw (found, back r (find_id row_id in_order i d.rows r found) status) refl
      ]

  -- A mark whose change does not make a submitted row of the one with this id.
  mark_owned-IsUnsent :
      (config : SubmissionConfig) (id : String) (change : ℕ → SubmissionRow → SubmissionRow)
      (plan : Plan) (d : Queue)
      → ((now : ℕ) (r : SubmissionRow) → (change now r).id ≡ r.id)
      → ((now : ℕ) (r : SubmissionRow)
          → (id == i) ≡ true
          → (change now r).status ≡ "submitted"
          → r.status ≡ "submitted")
      → IsUnsent d (mark_owned config id change plan d).2
  unfolding update_where is_owned
  mark_owned-IsUnsent config id change plan d same back =
      elim (mark_owned_frame config id change plan d) [
        | inl e ↦ rw e (λ h. h)
        | inr e ↦ rw e (
            map-IsUnsent _ d
              (λ r. elim (Bool-cases (is_owned config id r)) [
                | inl e ↦ rw e (same (d.clock 0) r)
                | inr e ↦ rw e
              ])
              (λ r own. elim (Bool-cases (is_owned config id r)) [
                | inl e ↦ rw e (back (d.clock 0) r (ground (arith, eq_iff r.id id, eq_iff id i)))
                | inr e ↦ rw e (λ h. h)
              ]))
      ]

  claim_body-IsUnsent :
      (jsonb : String → String) (config : SubmissionConfig) (limit : ℕ) (plan : Plan) (d : Queue)
      → IsUnsent d (claim_body jsonb config limit plan d).2
  unfolding claim_body statement claim
  claim_body-IsUnsent jsonb config limit [] d =
      map-IsUnsent _ d (λ r. (locked config (d.clock 0) _ r).0)
        (λ r own h. sym (locked config (d.clock 0) _ r).1 ∙ h)
  claim_body-IsUnsent jsonb config limit (fine ∷ plan) d =
      map-IsUnsent _ d (λ r. (locked config (d.clock 0) _ r).0)
        (λ r own h. sym (locked config (d.clock 0) _ r).1 ∙ h)
  claim_body-IsUnsent jsonb config limit (fails ∷ plan) d = λ h. h
  claim_body-IsUnsent jsonb config limit (lost ∷ plan) d = λ h. h

  claim-IsUnsent :
      (jsonb : String → String) (config : SubmissionConfig) (limit : ℕ) (plan : Plan) (d : Queue)
      → IsUnsent d (claim_submissions jsonb config limit plan d).2
  claim-IsUnsent jsonb config limit plan d h = elim (claim_frame jsonb config limit plan d) [
    | inl e ↦ sym (ap (λ x. status_of x i) e) ∙ h
    | inr (plan', e) ↦
        claim_body-IsUnsent jsonb config limit plan' d (sym (ap (λ x. status_of x i) e) ∙ h)
  ]

failed_status :
    (config : SubmissionConfig) (cause : String) (terminal : Bool) (now : ℕ) (r : SubmissionRow)
    → (failed_row config cause terminal now r).status ≡ "submitted"
    → r.status ≡ "submitted"
unfolding failed_row
failed_status config cause true now r h = absurd (cc ((eq_iff "failed" "submitted").1 h))
failed_status config cause false now r h = absurd (cc ((eq_iff "pending" "submitted").1 h))

-- The network lets no send of the submission through.
abbrev pub IsUnreachable : {N : Type 0} → Sender N → String → Type 0
IsUnreachable {N} send i =
    (s : Submission) (n : N) → (s.id == i) ≡ true → (e : SendError) × ((send s n).0 ≡ err e)

module _ {N : Type 0} (jsonb : String → String) (config : SubmissionConfig) (send : Sender N)
    (max_attempts : ℕ) where
  mark-IsUnsent :
      (i : String) (s : Submission) (sent : Result SendError (Unit {0})) (plan : Plan) (d : Queue)
      → ((s.id == i) ≡ true → (e : SendError) × (sent ≡ err e))
      → IsUnsent i d (mark (submission_store jsonb config) send max_attempts s sent plan d).2
  unfolding submission_store mark_submitted mark_failed submitted_row failed_row
  mark-IsUnsent i s (ok _) plan d unreachable =
      mark_owned-IsUnsent i config s.id submitted_row plan d (λ now r. refl)
        (λ now r hit h. let (e, q) = unreachable hit in absurd (cc q))
  mark-IsUnsent i s (err e) plan d unreachable =
      mark_owned-IsUnsent i config s.id
        (failed_row config e.message (e.is_permanent || leb max_attempts s.attempt)) plan d
        (λ now r. refl)
        (λ now r hit.
          failed_status config e.message (e.is_permanent || leb max_attempts s.attempt) now r)

  -- However long the dispatcher runs over the table of submissions, and whatever statements fail or lose
  -- their reply: where every send of a submission fails, its status is submitted at the end only if it
  -- was that before.
  pub dispatch_submits_sent :
      (batch polls : ℕ) (errors : List SubmissionError) (plan : Plan) (d : Queue) (n : N)
      (i : String)
      → IsUnreachable send i
      → status_of
          (run (submission_store jsonb config) send max_attempts batch polls errors plan d n).2
          i
        ≡ some "submitted"
      → status_of d i ≡ some "submitted"
  unfolding submission_store
  dispatch_submits_sent batch polls errors plan d n i unreachable h =
      run-Keeps (submission_store jsonb config) send max_attempts (IsUnsent i)
        (record {
          same = λ d h. h;
          trans = λ d d' d'' p q h. p (q h);
          claims = claim-IsUnsent i jsonb config;
          marks = λ s plan d n. mark-IsUnsent i s (send s n).0 plan d (unreachable s n);
        })
        batch polls errors plan d n h
