-- ===== src/Platform/Consumer/Trace.antt =====
-- The orders of calls that the consumer can make.
use test_task_autumn.Prelude.{
  ℕ, zero, suc, String, ◌≡◌, refl, inl, inr, none, some, List, [], ◌∷◌, nat_eq, string_eq,
  Option-cases, Result, ok, err, Result-cases,
}
use test_task_autumn.Platform.Consumer.{
  Record, message, World, Call, fetched, handled, committed, State, Ended, fetch, commit, handle,
  wait_retry, waited, retry, after_call, and_then, until_success, handle_until_success,
  commit_until_success, after_fetch, run,
}

-- What the consumer is to do next.
pub data Phase : Type 0 where
  idle : Phase
  handling : Record → Phase
  committing : Record → Phase

-- The calls that lead there, the latest first.
pub data Trace : List Call → Phase → Type 0 where
  start : Trace [] idle
  fetch_fails : {cs : List Call} → (e : String) → Trace cs idle → Trace (fetched (err e) ∷ cs) idle
  fetches :
      {cs : List Call} → (r : Record) → Trace cs idle → Trace (fetched (ok r) ∷ cs) (handling r)
  handle_fails :
      {cs : List Call} {r : Record}
      → (e : String) → Trace cs (handling r)
      → Trace (handled (message r) (err e) ∷ cs) (handling r)
  handles :
      {cs : List Call} {r : Record}
      → Trace cs (handling r)
      → Trace (handled (message r) (ok tt) ∷ cs) (committing r)
  commit_fails :
      {cs : List Call} {r : Record}
      → (e : String) → Trace cs (committing r)
      → Trace (committed r (err e) ∷ cs) (committing r)
  commits :
      {cs : List Call} {r : Record}
      → Trace cs (committing r)
      → Trace (committed r (ok tt) ∷ cs) idle

-- A loop that ended in nil is past its phase; any other is still in it.
abbrev EndsIn : {W : Type 0} → (List Call → Type 0) → (List Call → Type 0) → Ended W → Type 0
EndsIn P Q (none, s) = P s.calls
EndsIn P Q (some (err e), s) = P s.calls
EndsIn P Q (some (ok _), s) = Q s.calls

abbrev CallsIn :
    {W : Type 0}
    → (List Call → Type 0)
    → (List Call → Type 0)
    → Result String (Unit {0}) × State W
    → Type 0
CallsIn P Q (err e, s) = P s.calls
CallsIn P Q (ok _, s) = Q s.calls

module _ {W : Type 0} (w : World W) where
  -- A retry makes no call of its own: it ends in an error, or goes on with the same calls.
  module _ (G : Ended W → Type 0) (again : State W → Ended W) where
    waited_goes_on :
        (calls : List Call) (slept : Result String (Unit {0}) × W)
        → ((e : String) (world : W) → G (some (err e), record { world = world; calls = calls }))
        → ((world : W) → G (again (record { world = world; calls = calls })))
        → G (waited w again calls slept)
    waited_goes_on calls (ok _, world) stops goes = goes world
    waited_goes_on calls (err e, world) stops goes = stops e world

    retry_goes_on :
        (e : String) (s : State W)
        → ((e' : String) (world : W) → G (some (err e'), record { world = world; calls = s.calls }))
        → ((world : W) → G (again (record { world = world; calls = s.calls })))
        → G (retry w again e s)
    retry_goes_on e s stops goes = elim (Option-cases (w.context_error s.world)) [
      | inr (c, q) ↦ rw (q, retry) (stops c s.world)
      | inl q ↦
          rw (q, retry) (waited_goes_on s.calls (wait_retry w (w.report e s.world)) stops goes)
    ]

  after_call-EndsIn :
      (P Q : List Call → Type 0) (again : State W → Ended W)
      (called : Result String (Unit {0}) × State W)
      → CallsIn P Q called
      → ((s' : State W) → P s'.calls → EndsIn P Q (again s'))
      → EndsIn P Q (after_call w again called)
  after_call-EndsIn P Q again (ok _, s) p goes = p
  after_call-EndsIn P Q again (err e, s) p goes =
      retry_goes_on (EndsIn P Q) again e s (λ e' world. p)
        (λ world. goes (record { world = world; calls = s.calls }) p)

  until_success-EndsIn :
      (P Q : List Call → Type 0) (call : State W → Result String (Unit {0}) × State W)
      → ((s : State W) → P s.calls → CallsIn P Q (call s))
      → (n : ℕ) (s : State W) → P s.calls
      → EndsIn P Q (until_success w call n s)
  unfolding until_success
  until_success-EndsIn P Q call each zero s p = p
  until_success-EndsIn P Q call each (suc n) s p =
      after_call-EndsIn P Q (until_success w call n) (call s) (each s p)
        (λ s' p'. until_success-EndsIn P Q call each n s' p')

  handle-CallsIn :
      (r : Record) (s : State W)
      → Trace s.calls (handling r)
      → CallsIn
          (λ cs. Trace cs (handling r))
          (λ cs. Trace cs (committing r))
          (handle w (message r) s)
  handle-CallsIn r s p = elim (Result-cases (w.handle (message r) s.world).0) [
    | inl (tt, q) ↦ rw (q, handle) (handles p)
    | inr (e, q) ↦ rw (q, handle) (handle_fails e p)
  ]

  commit-CallsIn :
      (r : Record) (s : State W)
      → Trace s.calls (committing r)
      → CallsIn (λ cs. Trace cs (committing r)) (λ cs. Trace cs idle) (commit w r s)
  commit-CallsIn r s p =
      elim (Result-cases (w.commit_messages r.topic r.partition r.offset s.world).0) [
        | inl (tt, q) ↦ rw (q, commit) (commits p)
        | inr (e, q) ↦ rw (q, commit) (commit_fails e p)
      ]

  -- The calls are those of some phase.
  abbrev pub IsTraced : List Call → Type 0
  IsTraced cs = (p : Phase) × Trace cs p

  abbrev IsTracedEnd : Ended W → Type 0
  IsTracedEnd o = IsTraced o.1.calls

  committed_goes_on :
      (r : Record) (again : State W → Ended W) (o : Ended W)
      → EndsIn (λ cs. Trace cs (committing r)) (λ cs. Trace cs idle) o
      → ((s : State W) → Trace s.calls idle → IsTracedEnd (again s))
      → IsTracedEnd (and_then w again o)
  committed_goes_on r again (none, s) p goes = (committing r, p)
  committed_goes_on r again (some (err e), s) p goes = (committing r, p)
  committed_goes_on r again (some (ok _), s) p goes = goes s p

  handled_goes_on :
      (r : Record) (next : State W → Ended W) (o : Ended W)
      → EndsIn (λ cs. Trace cs (handling r)) (λ cs. Trace cs (committing r)) o
      → ((s : State W) → Trace s.calls (committing r) → IsTracedEnd (next s))
      → IsTracedEnd (and_then w next o)
  handled_goes_on r next (none, s) p goes = (handling r, p)
  handled_goes_on r next (some (err e), s) p goes = (handling r, p)
  handled_goes_on r next (some (ok _), s) p goes = goes s p

  fetch_traced :
      (attempts : ℕ) (again : State W → Ended W) (s : State W)
      (got : Result String Record × State W)
      → Trace s.calls idle
      → got.1.calls ≡ fetched got.0 ∷ s.calls
      → ((s' : State W) → Trace s'.calls idle → IsTracedEnd (again s'))
      → IsTracedEnd (after_fetch w attempts again got)
  fetch_traced attempts again s (err e, s') p called goes =
      let still : Trace s'.calls idle = rw called (fetch_fails e p) in
      retry_goes_on IsTracedEnd again e s' (λ e' world. (idle, still))
        (λ world. goes (record { world = world; calls = s'.calls }) still)
  fetch_traced attempts again s (ok r, s') p called goes =
      handled_goes_on r _ (handle_until_success w r attempts s')
        (until_success-EndsIn _ _ (handle w (message r)) (handle-CallsIn r) attempts s'
          (rw called (fetches r p)))
        (λ t q.
          committed_goes_on r again (commit_until_success w r attempts t)
            (until_success-EndsIn _ _ (commit w r) (commit-CallsIn r) attempts t q) goes)

  pub run-IsTraced :
      (attempts rounds : ℕ) (s : State W)
      → Trace s.calls idle
      → IsTraced (run w attempts rounds s).1.calls
  unfolding run
  run-IsTraced attempts zero s p = (idle, p)
  run-IsTraced attempts (suc rounds) s p = elim (Option-cases (w.context_error s.world)) [
    | inr (e, q) ↦ rw (q, run) (idle, p)
    | inl q ↦
        rw (q, run)
          (fetch_traced attempts (run w attempts rounds) s (fetch w s) p refl
            (run-IsTraced attempts rounds))
  ]
