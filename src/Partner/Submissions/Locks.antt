-- ===== src/Partner/Submissions/Locks.antt =====
-- While a lock of one dispatcher lasts none claims the submission again.
use test_task_autumn.Prelude.{
  ℕ, ◌+◌, ◌≤◌, String, ◌≡◌, refl, inl, inr, Bool, true, false, not, ◌&&◌, ◌||◌, Option, none, some,
  List, arith, eq_iff, eq_refl, leb, if◌then◌else◌, ◌==◌, nat_eq, string_eq, Bool-cases, contains,
}
use test_task_autumn.Platform.Claims.{find, IsKeyed, selected, claim, update_where}
use test_task_autumn.Platform.Claims.Laws.{
  selected_meets, find_id, find_claimed, find_passed, find_updated, not_selected, claim-IsKeyed,
  update_where-IsKeyed,
}
use test_task_autumn.Partner.Tables.{SubmissionRow}
use test_task_autumn.Partner.Submissions.{
  SubmissionConfig, whole_seconds, row_id, is_claimable, lock_row, is_owned, submitted_row,
  failed_row, in_order, is_locked_by,
}

-- The end of a lock that is taken at `now`.
abbrev pub lock_end : SubmissionConfig → ℕ → ℕ
lock_end config now = now + whole_seconds config.lock_ttl

abbrev is_until : Option ℕ → ℕ → Bool
is_until none end = false
is_until (some t) end = leb end t

-- The row is not pending, or locked by this dispatcher up to `end`.
abbrev is_held : String → ℕ → SubmissionRow → Bool
is_held dispatcher end r =
    not (r.status == "pending")
    || (is_locked_by r.locked_by dispatcher && is_until r.locked_until end)

module _ (dispatcher : String) (end : ℕ) where
  held_closed :
      (r : SubmissionRow) (later : ℕ)
      → is_held dispatcher end r ≡ true
      → later ≤ end
      → is_claimable later r ≡ false
  unfolding is_claimable
  held_closed r later held soon = ground arith

  held_submitted :
      (other : SubmissionConfig) (id : String) (now : ℕ) (r : SubmissionRow)
      → is_held dispatcher end r ≡ true
      → is_held dispatcher end (if is_owned other id r then submitted_row now r else r) ≡ true
  unfolding submitted_row is_owned
  held_submitted other id now r held = elim (Bool-cases (is_owned other id r)) [
    | inl e ↦ rw e refl
    | inr e ↦ rw e held
  ]

  locked_once :
      (lock : Option String) (other : String)
      → is_locked_by lock other ≡ true
      → is_locked_by lock dispatcher ≡ true
      → (other == dispatcher) ≡ true
  locked_once none other p q = cc
  locked_once (some owner) other p q =
      ground (arith, eq_iff owner other, eq_iff owner dispatcher, eq_iff other dispatcher)

  held_failed :
      (other : SubmissionConfig) (id cause i : String) (terminal : Bool) (now : ℕ)
      (r : SubmissionRow)
      → row_id r ≡ i
      → (id == i && other.dispatcher_id == dispatcher) ≡ false
      → is_held dispatcher end r ≡ true
      → is_held dispatcher end
          (if is_owned other id r then failed_row other cause terminal now r else r)
        ≡ true
  unfolding failed_row is_owned
  held_failed other id cause i terminal now r own differ held =
      ground (arith, eq_iff (row_id r) id, eq_iff id i, locked_once r.locked_by other.dispatcher_id)

  -- Statements of any dispatchers in turn: claims up to `end`, marks of a submission that was sent, at any time,
  -- and marks of a failure, but not that of `i` by the dispatcher itself.
  pub data Turns (i : String) (rows : List SubmissionRow) : List SubmissionRow → Type 0 where
    stays : Turns i rows rows
    claims :
        {rows' : List SubmissionRow} (other : SubmissionConfig) (now limit : ℕ)
        → now ≤ end
        → Turns i rows rows'
        → Turns i rows (claim row_id in_order (is_claimable now) (lock_row other now) limit rows')
    submits :
        {rows' : List SubmissionRow} (other : SubmissionConfig) (id : String) (now : ℕ)
        → Turns i rows rows'
        → Turns i rows (update_where row_id (is_owned other id) (submitted_row now) rows')
    gives_up :
        {rows' : List SubmissionRow} (other : SubmissionConfig) (id cause : String)
        (terminal : Bool) (now : ℕ)
        → (id == i && other.dispatcher_id == dispatcher) ≡ false
        → Turns i rows rows'
        → Turns i rows
            (update_where row_id (is_owned other id) (failed_row other cause terminal now) rows')

  abbrev Holds : String → List SubmissionRow → Type 0
  Holds i rows =
      (r : SubmissionRow) × IsKeyed row_id rows
      × (find row_id i rows ≡ some r)
      × (is_held dispatcher end r ≡ true)

  Turns-Holds :
      {i : String} {rows rows' : List SubmissionRow}
      → Holds i rows
      → Turns i rows rows'
      → Holds i rows'
  unfolding lock_row submitted_row failed_row
  Turns-Holds h stays = h
  Turns-Holds {i} h (claims {rows' = rows} other now limit soon turns) =
      let (r, k, found, held) = Turns-Holds h turns in
      let closed = held_closed r now held soon in
      (
        r,
        claim-IsKeyed row_id in_order (is_claimable now) (lock_row other now) limit rows (λ x. refl)
            k,
        find_passed row_id in_order (is_claimable now) (lock_row other now) limit i rows r
            (λ x. refl) k found closed,
        held,
      )
  Turns-Holds {i} h (submits {rows' = rows} other id now turns) =
      let (r, k, found, held) = Turns-Holds h turns in
      (
        (if is_owned other id r then submitted_row now r else r),
        update_where-IsKeyed row_id (is_owned other id) (submitted_row now) rows (λ x. refl) k,
        find_updated row_id (is_owned other id) (submitted_row now) i rows r (λ x. refl) found,
        held_submitted other id now r held,
      )
  Turns-Holds {i} h (gives_up {rows' = rows} other id cause terminal now differ turns) =
      let (r, k, found, held) = Turns-Holds h turns in
      let own = find_id row_id in_order i rows r found in
      (
        (if is_owned other id r then failed_row other cause terminal now r else r),
        update_where-IsKeyed row_id (is_owned other id) (failed_row other cause terminal now) rows
            (λ x. refl) k,
        find_updated row_id (is_owned other id) (failed_row other cause terminal now) i rows r
            (λ x. refl) found,
        held_failed other id cause i terminal now r own differ held,
      )

lock_row-held :
    (config : SubmissionConfig) (now : ℕ) (r : SubmissionRow)
    → is_held config.dispatcher_id (lock_end config now) (lock_row config now r) ≡ true
unfolding lock_row
lock_row-held config now r = ground (arith, eq_refl config.dispatcher_id)

-- In a table with ids for keys, a submission that one dispatcher claims at `now` is not claimed again, by
-- another dispatcher or by the same, up to the end of the whole seconds of the first one's lock TTL, whatever
-- claims in that time and marks by any dispatchers came between, unless a mark of the one that holds it
-- says that it has failed.
pub submission_claims_disjoint :
    (config : SubmissionConfig) (now later limit limit' : ℕ) (i : String)
    (rows rows' : List SubmissionRow)
    → IsKeyed row_id rows
    → contains (selected row_id in_order (is_claimable now) limit rows) i ≡ true
    → Turns config.dispatcher_id
        (lock_end config now)
        i
        (claim row_id in_order (is_claimable now) (lock_row config now) limit rows)
        rows'
    → later ≤ lock_end config now
    → contains (selected row_id in_order (is_claimable later) limit' rows') i ≡ false
unfolding lock_row
submission_claims_disjoint config now later limit limit' i rows rows' keyed chosen turns soon =
    let dispatcher = config.dispatcher_id in
    let end = lock_end config now in
    let (r, found, _) =
      selected_meets row_id in_order (is_claimable now) limit i rows keyed chosen in
    let (x, k, found', held) =
      Turns-Holds dispatcher end
        (
          lock_row config now r,
          claim-IsKeyed row_id in_order (is_claimable now) (lock_row config now) limit rows
              (λ x. refl) keyed,
          find_claimed row_id in_order (is_claimable now) (lock_row config now) limit i rows r
              (λ x. refl) chosen found,
          lock_row-held config now r,
        )
        turns in
    not_selected row_id in_order (is_claimable later) limit' i rows' x k found'
      (held_closed dispatcher end x later held soon)
