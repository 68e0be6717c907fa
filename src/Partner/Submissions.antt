-- ===== src/Partner/Submissions.antt =====
-- internal/partner/postgres/submissions.go: the table partner_order_submissions as the store of a
-- dispatcher. Its rows stand in the order of created_at and id, so that the claim need not sort.
pub mod Locks
pub mod Decided
pub mod Sent
use test_task_autumn.Prelude.{
  ℕ, zero, suc, ◌+◌, ◌-◌, ◌*◌, ◌/◌, ◌%◌, ◌^◌, ◌≤◌, ◌<◌, String, ◌<>◌, ◌≡◌, refl, sym, ap, ◌∙◌, ◌≢◌,
  ◌↔◌, ◌⊎◌, inl, inr, Bool, true, false, not, ◌&&◌, ◌||◌, Option, none, some, List, [], ◌∷◌, ◌++◌,
  map, arith, eq_iff, eq_refl, ltb, leb, if◌then◌else◌, Eq, ◌==◌, ◌!=◌, nat_eq, string_eq,
  Bool-cases, Option-cases, Map, empty_map, insert, length, is_empty, take, keep_if, All,
  length-append, is_empty-append_cons, length-take-le, contains, Result, ok, err, >>=-eq-ok,
  Result-cases, fail_if,
}
use test_task_autumn.Database.{Tx, throw, execute, statement, transaction, require, ◌>>=◌}
use test_task_autumn.Platform.Claims
use test_task_autumn.Partner.Tables.{SubmissionRow}
use test_task_autumn.Partner.Dispatch.{Submission}

pub data SubmissionError : Type 0 where
  invalid_submission_config submission_not_owned database : SubmissionError

-- Durations are numbers of nanoseconds.
pub record SubmissionConfig : Type 0 where
  pub dispatcher_id : String
  pub lock_ttl : ℕ
  pub retry_delay : ℕ

-- The table, and the clock of the database: `clock n` is `now()` of the n-th statement from here.
pub record Queue : Type 0 where
  pub rows : List SubmissionRow
  pub clock : ℕ → ℕ

abbrev second : ℕ
second = 1000000000

-- a duration in whole seconds, as an interval
abbrev pub whole_seconds : ℕ → ℕ
whole_seconds duration = duration / second * second

-- `NewSubmissionStore` on a database; `trim_space` is strings.TrimSpace.
unfoldable pub new_submission_store :
    (String → String) → SubmissionConfig → Result SubmissionError SubmissionConfig
new_submission_store trim_space config =
    if trim_space config.dispatcher_id == ""
      || ltb config.lock_ttl second
      || ltb config.retry_delay second
    then err invalid_submission_config
    else ok (record config { dispatcher_id = trim_space config.dispatcher_id })

abbrev is_over : Option ℕ → ℕ → Bool
is_over none now = true
is_over (some t) now = ltb t now

abbrev is_due : Option ℕ → ℕ → Bool
is_due none now = true
is_due (some t) now = leb t now

abbrev pub row_id : SubmissionRow → String
row_id r = r.id

-- the condition of claimSubmissionsSQL
unfoldable pub is_claimable : ℕ → SubmissionRow → Bool
is_claimable now r =
    r.status == "pending" && is_over r.locked_until now && is_due r.next_attempt_at now

-- the `SET` of claimSubmissionsSQL
unfoldable pub lock_row : SubmissionConfig → ℕ → SubmissionRow → SubmissionRow
lock_row config now r = record r {
  locked_by = some config.dispatcher_id;
  locked_until = some (now + whole_seconds config.lock_ttl);
  attempts = suc r.attempts;
  last_error = none;
}

-- the columns of `RETURNING`; `jsonb` is what `payload::text` gives of an inserted text
abbrev pub submission_of : (String → String) → SubmissionRow → Submission
submission_of jsonb r = record {
  id = r.id;
  order_id = r.order_id;
  external_store_id = r.external_store_id;
  destination_url = r.destination_url;
  payload = jsonb r.payload;
  attempt = r.attempts;
}

abbrev pub is_locked_by : Option String → String → Bool
is_locked_by none dispatcher = false
is_locked_by (some owner) dispatcher = owner == dispatcher

-- the condition of the two marks
unfoldable pub is_owned : SubmissionConfig → String → SubmissionRow → Bool
is_owned config id r =
    r.id == id && is_locked_by r.locked_by config.dispatcher_id && r.status == "pending"

-- the `SET` of markSubmissionSubmittedSQL and of markSubmissionFailedSQL
unfoldable pub submitted_row : ℕ → SubmissionRow → SubmissionRow
submitted_row now r = record r {
  status = "submitted";
  submitted_at = some now;
  locked_by = none;
  locked_until = none;
  next_attempt_at = none;
  last_error = none;
}

unfoldable pub failed_row : SubmissionConfig → String → Bool → ℕ → SubmissionRow → SubmissionRow
failed_row config cause terminal now r = record r {
  status = if terminal then "failed" else "pending";
  locked_by = none;
  locked_until = none;
  last_error = some cause;
  next_attempt_at = if terminal then none else some (now + whole_seconds config.retry_delay);
}

-- The table after a statement that leaves these rows.
abbrev pub tick : Queue → List SubmissionRow → Queue
tick d rows = record { rows = rows; clock = λ n. d.clock (suc n) }

-- the order of the table
abbrev pub in_order : SubmissionRow → SubmissionRow → Bool
in_order r s = true

module _ (jsonb : String → String) (config : SubmissionConfig) where
  unfoldable pub claim_body : ℕ → Tx SubmissionError Queue (List Submission)
  unfolding is_claimable lock_row
  claim_body limit = statement database (λ d.
      let now = d.clock 0 in
      ok (
        map (submission_of jsonb)
            (Claims.returned row_id in_order (is_claimable now) (lock_row config now) limit d.rows),
        tick d (Claims.claim row_id in_order (is_claimable now) (lock_row config now) limit d.rows),
      ))

  -- `Claim`
  unfoldable pub claim : ℕ → Tx SubmissionError Queue (List Submission)
  claim limit =
      if limit == 0
      then throw invalid_submission_config
      else transaction database (claim_body limit)

module _ (config : SubmissionConfig) where
  -- one `UPDATE`, and requireOwnedSubmission
  unfoldable pub mark_owned :
      String → (ℕ → SubmissionRow → SubmissionRow) → Tx SubmissionError Queue (Unit {0})
  unfolding is_owned
  mark_owned id change =
      execute database (λ d. (
        Claims.affected row_id (is_owned config id) d.rows,
        tick d (Claims.update_where row_id (is_owned config id) (change (d.clock 0)) d.rows),
      ))
      >>= λ rows. require (rows != 0) submission_not_owned

  -- `MarkSubmitted`
  unfoldable pub mark_submitted : String → Tx SubmissionError Queue (Unit {0})
  unfolding submitted_row
  mark_submitted id = mark_owned id submitted_row

  -- `MarkFailed`, with the text of its cause
  unfoldable pub mark_failed : String → String → Bool → Tx SubmissionError Queue (Unit {0})
  unfolding failed_row
  mark_failed id cause terminal = mark_owned id (failed_row config cause terminal)
