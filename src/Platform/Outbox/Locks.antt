-- ===== src/Platform/Outbox/Locks.antt =====
-- While a lock of one relay lasts no relay claims the row again, and a published row is never claimed.
use test_task_autumn.Prelude.{
  ℕ, ◌+◌, ◌*◌, ◌≤◌, String, ◌≡◌, refl, Bool, true, false, not, ◌&&◌, ◌||◌, Option, none, some, List,
  arith, eq_iff, eq_refl, leb, if◌then◌else◌, ◌==◌, nat_eq, string_eq, contains,
}
use test_task_autumn.Platform.Claims.{find, IsKeyed, selected, claim, update_where}
use test_task_autumn.Platform.Claims.Laws.{
  selected_meets, find_id, find_claimed, find_passed, find_updated, not_selected, claim-IsKeyed,
  update_where-IsKeyed,
}
use test_task_autumn.Platform.Outbox.{
  OutboxConfig, Row, second, duration_seconds, event_id, is_claimable, is_before, lock_row,
  is_owned, published_row, failed_row, is_locked_by, is_unpublished,
}

-- The end of a lock that is taken at `now`.
abbrev pub lock_end : OutboxConfig → ℕ → ℕ
lock_end config now = now + duration_seconds config.lock_ttl * second

abbrev is_until : Option ℕ → ℕ → Bool
is_until none end = false
is_until (some t) end = leb end t

-- The row is published, or locked by this relay up to `end`.
abbrev is_held : String → ℕ → Row → Bool
is_held relay end r =
    not (is_unpublished r) || (is_locked_by r.locked_by relay && is_until r.locked_until end)

module _ (relay : String) (end : ℕ) where
  held_closed :
      (r : Row) (later : ℕ)
      → is_held relay end r ≡ true
      → later ≤ end
      → is_claimable later r ≡ false
  unfolding is_claimable
  held_closed r later held soon = ground arith

  held_published :
      (other : OutboxConfig) (event : String) (now : ℕ) (r : Row)
      → is_held relay end r ≡ true
      → is_held relay end (if is_owned other event r then published_row now r else r) ≡ true
  unfolding published_row is_owned
  held_published other event now r held = ground arith

  locked_once :
      (lock : Option String) (other : String)
      → is_locked_by lock other ≡ true
      → is_locked_by lock relay ≡ true
      → (other == relay) ≡ true
  locked_once none other p q = cc
  locked_once (some owner) other p q =
      ground (arith, eq_iff owner other, eq_iff owner relay, eq_iff other relay)

  held_failed :
      (other : OutboxConfig) (event cause i : String) (now : ℕ) (r : Row)
      → event_id r ≡ i
      → (event == i && other.relay_id == relay) ≡ false
      → is_held relay end r ≡ true
      → is_held relay end (if is_owned other event r then failed_row other cause now r else r)
        ≡ true
  unfolding failed_row is_owned
  held_failed other event cause i now r own differ held =
      ground
        (arith, eq_iff (event_id r) event, eq_iff event i, locked_once r.locked_by other.relay_id)

  -- Statements of any relays in turn: claims up to `end`, marks of a publication at any time, and marks
  -- of a failure, but not that of the message `i` by the relay itself.
  pub data Turns (i : String) (rows : List Row) : List Row → Type 0 where
    stays : Turns i rows rows
    claims :
        {rows' : List Row} (other : OutboxConfig) (now limit : ℕ)
        → now ≤ end
        → Turns i rows rows'
        → Turns i rows
            (claim event_id is_before (is_claimable now) (lock_row other now) limit rows')
    publishes :
        {rows' : List Row} (other : OutboxConfig) (event : String) (now : ℕ)
        → Turns i rows rows'
        → Turns i rows (update_where event_id (is_owned other event) (published_row now) rows')
    gives_up :
        {rows' : List Row} (other : OutboxConfig) (event cause : String) (now : ℕ)
        → (event == i && other.relay_id == relay) ≡ false
        → Turns i rows rows'
        → Turns i rows
            (update_where event_id (is_owned other event) (failed_row other cause now) rows')

  abbrev Holds : String → List Row → Type 0
  Holds i rows =
      (r : Row) × IsKeyed event_id rows
      × (find event_id i rows ≡ some r)
      × (is_held relay end r ≡ true)

  Turns-Holds :
      {i : String} {rows rows' : List Row} → Holds i rows → Turns i rows rows' → Holds i rows'
  unfolding lock_row published_row failed_row
  Turns-Holds h stays = h
  Turns-Holds {i} h (claims {rows' = rows} other now limit soon turns) =
      let (r, k, found, held) = Turns-Holds h turns in
      let closed = held_closed r now held soon in
      (
        r,
        claim-IsKeyed event_id is_before (is_claimable now) (lock_row other now) limit rows
            (λ x. refl) k,
        find_passed event_id is_before (is_claimable now) (lock_row other now) limit i rows r
            (λ x. refl) k found closed,
        held,
      )
  Turns-Holds {i} h (publishes {rows' = rows} other event now turns) =
      let (r, k, found, held) = Turns-Holds h turns in
      (
        (if is_owned other event r then published_row now r else r),
        update_where-IsKeyed event_id (is_owned other event) (published_row now) rows (λ x. refl) k,
        find_updated event_id (is_owned other event) (published_row now) i rows r (λ x. refl) found,
        held_published other event now r held,
      )
  Turns-Holds {i} h (gives_up {rows' = rows} other event cause now differ turns) =
      let (r, k, found, held) = Turns-Holds h turns in
      let own = find_id event_id is_before i rows r found in
      (
        (if is_owned other event r then failed_row other cause now r else r),
        update_where-IsKeyed event_id (is_owned other event) (failed_row other cause now) rows
            (λ x. refl) k,
        find_updated event_id (is_owned other event) (failed_row other cause now) i rows r
            (λ x. refl) found,
        held_failed other event cause i now r own differ held,
      )

lock_row-held :
    (config : OutboxConfig) (now : ℕ) (r : Row)
    → is_held config.relay_id (lock_end config now) (lock_row config now r) ≡ true
unfolding lock_row
lock_row-held config now r = ground (arith, eq_refl config.relay_id)

-- In a table with event ids for keys, a message that one relay claims at `now` is not claimed again, by
-- another relay or by the same, up to the end of the whole seconds of the first one's lock TTL, whatever
-- claims in that time and marks by any relays came between, unless a mark of the relay that holds it
-- says that it has failed.
pub claims_disjoint :
    (config : OutboxConfig) (now later limit limit' : ℕ) (i : String) (rows rows' : List Row)
    → IsKeyed event_id rows
    → contains (selected event_id is_before (is_claimable now) limit rows) i ≡ true
    → Turns config.relay_id
        (lock_end config now)
        i
        (claim event_id is_before (is_claimable now) (lock_row config now) limit rows)
        rows'
    → later ≤ lock_end config now
    → contains (selected event_id is_before (is_claimable later) limit' rows') i ≡ false
unfolding lock_row
claims_disjoint config now later limit limit' i rows rows' keyed chosen turns soon =
    let relay = config.relay_id in
    let end = lock_end config now in
    let (r, found, _) =
      selected_meets event_id is_before (is_claimable now) limit i rows keyed chosen in
    let (x, k, found', held) =
      Turns-Holds relay end
        (
          lock_row config now r,
          claim-IsKeyed event_id is_before (is_claimable now) (lock_row config now) limit rows
              (λ x. refl) keyed,
          find_claimed event_id is_before (is_claimable now) (lock_row config now) limit i rows r
              (λ x. refl) chosen found,
          lock_row-held config now r,
        )
        turns in
    not_selected event_id is_before (is_claimable later) limit' i rows' x k found'
      (held_closed relay end x later held soon)
