-- ===== src/Platform/Consumer/Progress.antt =====
-- Failures that come to an end hold the consumer up and lose nothing, and a cancelled context ends it.
use test_task_autumn.Prelude.{
  ℕ, zero, suc, ◌+◌, ◌<◌, String, ◌≡◌, refl, sym, ap, ◌∙◌, ◌⊎◌, inl, inr, none, some, List, [], ◌∷◌,
  ◌++◌, arith, nat_eq, string_eq, Result, ok, err, Result-cases,
}
use mathlib.Core.List.{append-nil, append_assoc}
use test_task_autumn.Platform.Consumer.{
  Record, message, World, committed, State, Ended, fetch, commit, handle, wait_retry, retry,
  after_call, and_then, until_success, run,
}
use test_task_autumn.Platform.Consumer.Delivery.{committed_records}

zero_add_native : (n : ℕ) → 0 + n ≡ n
zero_add_native n = omega arith

suc_add : (n m : ℕ) → suc n + m ≡ suc (n + m)
suc_add n m = omega arith

module _ {W : Type 0} (w : World W) where
  -- The state after an error `e` of a call, with the context alive and the wait over.
  pub record Waits (e : String) (s s' : State W) : Type 0 where
    pub alive : w.context_error s.world ≡ none
    pub waits : wait_retry w (w.report e s.world) ≡ (ok tt, s'.world)
    pub same_calls : s.calls ≡ s'.calls

  -- A call that fails `n` times and then succeeds.
  pub data Recovers (call : State W → Result String (Unit {0}) × State W)
      : ℕ → State W → State W → Type 0 where
    succeeds : {s s' : State W} → call s ≡ (ok tt, s') → Recovers call zero s s'
    fails_once :
        {n : ℕ} {e : String} {s s' s'' t : State W}
        → call s ≡ (err e, s')
        → Waits e s' s''
        → Recovers call n s'' t
        → Recovers call (suc n) s t

  retry-Waits :
      (again : State W → Ended W) (e : String) (s s' : State W)
      → Waits e s s'
      → retry w again e s ≡ again s'
  retry-Waits again e s s' h = rw (h.alive, retry, h.waits, h.same_calls) refl

  until_success-Recovers :
      {call : State W → Result String (Unit {0}) × State W} {n : ℕ} {s t : State W}
      → Recovers call n s t
      → (attempts : ℕ) → n < attempts
      → until_success w call attempts s ≡ (some (ok tt), t)
  unfolding until_success
  until_success-Recovers (succeeds q) zero h = absurd (omega (arith, h))
  until_success-Recovers (succeeds q) (suc attempts) h = rw q refl
  until_success-Recovers (fails_once q waits rest) zero h = absurd (omega (arith, h))
  until_success-Recovers {call} (fails_once {e = e} {s' = s'} {s'' = s''} q waits rest)
        (suc attempts) h =
      rw q (
        retry-Waits (until_success w call attempts) e s' s'' waits
        ∙ until_success-Recovers rest attempts (omega (arith, h)))

  -- Rounds in which the calls fail fewer than `attempts` times, and which deliver these records.
  pub data Delivers (attempts : ℕ) : ℕ → State W → List Record → State W → Type 0 where
    done : {s : State W} → Delivers attempts zero s [] s
    fetch_refused :
        {n : ℕ} {e : String} {s s' s'' t : State W} {rs : List Record}
        → w.context_error s.world ≡ none
        → fetch w s ≡ (err e, s')
        → Waits e s' s''
        → Delivers attempts n s'' rs t
        → Delivers attempts (suc n) s rs t
    delivers :
        {n h c : ℕ} {r : Record} {s s' s'' s''' t : State W} {rs : List Record}
        → w.context_error s.world ≡ none
        → fetch w s ≡ (ok r, s')
        → Recovers (handle w (message r)) h s' s''
        → h < attempts
        → Recovers (commit w r) c s'' s'''
        → c < attempts
        → Delivers attempts n s''' rs t
        → Delivers attempts (suc n) s (r ∷ rs) t

  run_on :
      {attempts n : ℕ} {s t : State W} {rs : List Record}
      → (rounds : ℕ) → Delivers attempts n s rs t
      → run w attempts (n + rounds) s ≡ run w attempts rounds t
  unfolding run
  run_on rounds done = rw (zero_add_native rounds) refl
  run_on {attempts} rounds (fetch_refused {n} {e} {s} {s'} {s''} alive got waits rest) =
      rw (suc_add n rounds, alive, run, got)
        (retry-Waits (run w attempts (n + rounds)) e s' s'' waits ∙ run_on rounds rest)
  run_on {attempts} rounds (delivers {n} alive got handled_ h committed_ c rest) =
      rw
        (
          suc_add n rounds,
          alive,
          run,
          got,
          until_success-Recovers handled_ attempts h,
          until_success-Recovers committed_ attempts c,
        )
        (run_on rounds rest)

  committed_of_fetch :
      {s s' : State W} {result : Result String Record}
      → fetch w s ≡ (result, s')
      → committed_records s'.calls ≡ committed_records s.calls
  unfolding committed_records
  committed_of_fetch q = sym (ap (λ o. committed_records o.1.calls) q)

  committed_of_handle :
      (r : Record) {n : ℕ} {s t : State W}
      → Recovers (handle w (message r)) n s t
      → committed_records t.calls ≡ committed_records s.calls
  unfolding committed_records
  committed_of_handle r (succeeds q) = sym (ap (λ o. committed_records o.1.calls) q)
  committed_of_handle r (fails_once q waits rest) =
      committed_of_handle r rest
      ∙ sym (ap committed_records waits.same_calls)
      ∙ sym (ap (λ o. committed_records o.1.calls) q)

  committed_of_commit :
      {r : Record} {n : ℕ} {s t : State W}
      → Recovers (commit w r) n s t
      → committed_records t.calls ≡ committed_records s.calls ++ r ∷ []
  unfolding committed_records
  committed_of_commit {r} {s = s} (succeeds q) =
      sym (ap (λ o. committed_records o.1.calls) q)
      ∙ ap (λ o. committed_records (committed r o.0 ∷ s.calls)) q
  committed_of_commit {r} (fails_once {s = s} q waits rest) =
      committed_of_commit rest
      ∙ ap (λ rs. rs ++ r ∷ [])
          (sym (ap committed_records waits.same_calls)
            ∙ sym (ap (λ o. committed_records o.1.calls) q)
            ∙ ap (λ o. committed_records (committed r o.0 ∷ s.calls)) q)

  committed_records-Delivers :
      {attempts n : ℕ} {s t : State W} {rs : List Record}
      → Delivers attempts n s rs t
      → committed_records t.calls ≡ committed_records s.calls ++ rs
  committed_records-Delivers done = sym (append-nil _)
  committed_records-Delivers (fetch_refused {rs = rs} alive got waits rest) =
      committed_records-Delivers rest
      ∙ ap (λ rs'. rs' ++ rs) (sym (ap committed_records waits.same_calls) ∙ committed_of_fetch got)
  committed_records-Delivers {s = s}
        (delivers {r = r} {rs = rs} alive got handled_ h committed_ c rest) =
      let before = committed_of_handle r handled_ ∙ committed_of_fetch got in
      committed_records-Delivers rest
      ∙ ap (λ rs'. rs' ++ rs) (committed_of_commit committed_ ∙ ap (λ rs'. rs' ++ r ∷ []) before)
      ∙ append_assoc (committed_records s.calls) (r ∷ []) rs

  -- For `n` rounds in which the context stays alive, fetches may fail, and the handler and the commit of
  -- each fetched record fail fewer than `attempts` times before they succeed: `Run` gets through these
  -- rounds and goes on from their end, and it has committed exactly their records, in order.
  pub run-Delivers :
      (attempts n rounds : ℕ) (s t : State W) (rs : List Record)
      → Delivers attempts n s rs t
      → (run w attempts (n + rounds) s ≡ run w attempts rounds t)
        × (committed_records t.calls ≡ committed_records s.calls ++ rs)
  run-Delivers attempts n rounds s t rs h = (run_on rounds h, committed_records-Delivers h)

  -- A context that is done stays done, with the same error, under a commit.
  abbrev pub StaysDone : String → Type 0
  StaysDone e =
      (topic : String) (partition offset : ℕ) (world : W)
      → w.context_error world ≡ some e
      → w.context_error (w.commit_messages topic partition offset world).1 ≡ some e

  -- A context that is done when a call returns ends its loop there.
  until_success_done :
      (call : State W → Result String (Unit {0}) × State W) (n : ℕ) (e : String) (s : State W)
      → w.context_error (call s).1.world ≡ some e
      → ((until_success w call (suc n) s).0 ≡ some (err e))
        ⊎ (until_success w call (suc n) s ≡ (some (ok tt), (call s).1))
  unfolding until_success
  until_success_done call n e s h = elim (Result-cases (call s).0) [
    | inl (tt, q) ↦ inr (rw (q, after_call) refl)
    | inr (x, q) ↦ inl (rw (q, after_call, retry, h) refl)
  ]

  run_done :
      (attempts rounds : ℕ) (e : String) (s : State W)
      → w.context_error s.world ≡ some e
      → (run w attempts (suc rounds) s).0 ≡ some (err e)
  unfolding run
  run_done attempts rounds e s h = rw (h, run) refl

  stopped_stays :
      (next : State W → Ended W) (o : Ended W) (e : String)
      → o.0 ≡ some (err e)
      → (and_then w next o).0 ≡ some (err e)
  stopped_stays next (none, s) e h = cc
  stopped_stays next (some (err x), s) e h = h
  stopped_stays next (some (ok _), s) e h = cc

  -- Where a done context stays done under a commit: when the context is done at the return of the
  -- handler from a fetched record, `Run`, with at least two rounds and an attempt in each loop, returns
  -- the error of the context, whatever the handler and the broker answer.
  pub run_ends :
      (attempts rounds : ℕ) (e : String) (r : Record) (s s' : State W)
      → StaysDone e
      → w.context_error s.world ≡ none
      → fetch w s ≡ (ok r, s')
      → w.context_error (handle w (message r) s').1.world ≡ some e
      → (run w (suc attempts) (suc (suc rounds)) s).0 ≡ some (err e)
  unfolding run
  run_ends attempts rounds e r s s' stays alive got ends =
      let h = (handle w (message r) s').1 in
      let committed_ = stays r.topic r.partition r.offset h.world ends in
      elim (until_success_done (handle w (message r)) attempts e s' ends) [
        | inl stopped ↦
            rw (alive, run, got)
              (stopped_stays _ (until_success w (handle w (message r)) (suc attempts) s') e stopped)
        | inr handled_ ↦ elim (until_success_done (commit w r) attempts e h committed_) [
          | inl stopped ↦
              rw (alive, run, got, handled_)
                (stopped_stays _ (until_success w (commit w r) (suc attempts) h) e stopped)
          | inr done_ ↦
              rw (alive, run, got, handled_, done_)
                (run_done (suc attempts) rounds e (commit w r h).1 committed_)
        ]
      ]
