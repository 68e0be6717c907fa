-- ===== src/Partner/Dispatch/Frames.antt =====
-- What a claim keeps, and a mark of what a send gave, is kept by a whole run of a dispatcher.
use test_task_autumn.Prelude.{
  ℕ, zero, suc, inl, inr, List, [], ◌∷◌, nat_eq, string_eq, Result, ok, err, Result-cases,
}
use test_task_autumn.Database.{Plan}
use test_task_autumn.Partner.Dispatch.{
  Submission, Store, Sender, End, go_on, mark, send_all, run_once, report, run,
}

module _ {E D N : Type 0} (store : Store E D) (send : Sender N) (max_attempts : ℕ)
    (Keeps : D → D → Type 0) where
  -- A relation of two states of the tables that each call of the dispatcher to its store keeps.
  pub record IsKept : Type 0 where
    pub same : (d : D) → Keeps d d
    pub trans : (d d' d'' : D) → Keeps d d' → Keeps d' d'' → Keeps d d''
    pub claims : (limit : ℕ) (plan : Plan) (d : D) → Keeps d (store.claim limit plan d).2
    pub marks :
        (s : Submission) (plan : Plan) (d : D) (n : N)
        → Keeps d (mark store send max_attempts s (send s n).0 plan d).2

  go_on-Keeps :
      IsKept
      → (d : D) (n : N) (rest : Plan → D → End E D N) (o : Result E (Unit {0}) × Plan × D)
      → Keeps d o.2
      → ((plan : Plan) (d' : D) → Keeps d' (rest plan d').2)
      → Keeps d (go_on store send max_attempts n rest o).2
  go_on-Keeps k d n rest (ok _, plan, d') here there = k.trans d d' _ here (there plan d')
  go_on-Keeps k d n rest (err e, plan, d') here there = here

  send_all-Keeps :
      IsKept
      → (claimed : List Submission) (plan : Plan) (d : D) (n : N)
      → Keeps d (send_all store send max_attempts claimed plan d n).2
  unfolding send_all
  send_all-Keeps k [] plan d n = k.same d
  send_all-Keeps k (s ∷ rest) plan d n =
      let (sent, n') = send s n in
      go_on-Keeps k d n' (λ plan' d'. send_all store send max_attempts rest plan' d' n')
        (mark store send max_attempts s sent plan d) (k.marks s plan d n)
        (λ plan' d'. send_all-Keeps k rest plan' d' n')

  run_once-Keeps :
      IsKept
      → (batch : ℕ) (plan : Plan) (d : D) (n : N)
      → Keeps d (run_once store send max_attempts batch plan d n).2
  unfolding run_once
  run_once-Keeps k batch plan d n =
      let claimed = store.claim batch plan d in
      let first = k.claims batch plan d in
      elim (Result-cases claimed.0) [
        | inl (ss, e) ↦
            rw e (k.trans d claimed.2 _ first (send_all-Keeps k ss claimed.1 claimed.2 n))
        | inr (error, e) ↦ rw e first
      ]

  pub run-Keeps :
      IsKept
      → (batch polls : ℕ) (errors : List E) (plan : Plan) (d : D) (n : N)
      → Keeps d (run store send max_attempts batch polls errors plan d n).2
  unfolding run
  run-Keeps k batch zero errors plan d n = k.same d
  run-Keeps k batch (suc polls) errors plan d n =
      let (result, plan', d', n') = run_once store send max_attempts batch plan d n in
      k.trans d d' _ (run_once-Keeps k batch plan d n)
        (run-Keeps k batch polls (report store send max_attempts result errors) plan' d' n')
