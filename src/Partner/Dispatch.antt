-- ===== src/Partner/Dispatch.antt =====
-- internal/partner/dispatch/dispatcher.go: the dispatcher between a store of submissions and a sender,
-- both of them interfaces. `copySubmission` keeps a submission as it is.
pub mod Frames
use test_task_autumn.Prelude.{
  ℕ, zero, suc, ◌+◌, ◌-◌, ◌*◌, ◌/◌, ◌%◌, ◌^◌, ◌≤◌, ◌<◌, String, ◌<>◌, ◌≡◌, refl, sym, ap, ◌∙◌, ◌≢◌,
  ◌↔◌, ◌⊎◌, inl, inr, Bool, true, false, not, ◌&&◌, ◌||◌, Option, none, some, List, [], ◌∷◌, ◌++◌,
  map, arith, eq_iff, eq_refl, ltb, leb, if◌then◌else◌, Eq, ◌==◌, ◌!=◌, nat_eq, string_eq,
  Bool-cases, Option-cases, Map, empty_map, insert, length, is_empty, take, keep_if, All,
  length-append, is_empty-append_cons, length-take-le, contains, Result, ok, err, ◌>>=◌, >>=-eq-ok,
  Result-cases, ◌>>◌, fail_if,
}
use test_task_autumn.Database.{Plan, Tx}

pub record Submission : Type 0 where
  pub id : String
  pub order_id : String
  pub external_store_id : String
  pub destination_url : String
  pub payload : String
  pub attempt : ℕ

-- `Validate`
unfoldable pub is_valid : Submission → Bool
is_valid s = not (
    s.id == ""
    || s.order_id == ""
    || s.external_store_id == ""
    || s.destination_url == ""
    || s.payload == ""
    || s.attempt == 0)

-- an error of a sender, with what `IsPermanent` says of it
pub record SendError : Type 0 where
  pub message : String
  pub is_permanent : Bool

-- `Store`
pub record Store (E D : Type 0) : Type 0 where
  pub claim : ℕ → Tx E D (List Submission)
  pub mark_submitted : String → Tx E D (Unit {0})
  pub mark_failed : String → String → Bool → Tx E D (Unit {0})

-- `Sender`, over the state `N` of the network
abbrev pub Sender : Type 0 → Type 0
Sender N = Submission → N → Result SendError (Unit {0}) × N

-- the result, the faults that are left, the store and the network
abbrev pub End : (E D N : Type 0) → Type 0
End E D N = Result E (Unit {0}) × Plan × D × N

module _ {E D N : Type 0} (store : Store E D) (send : Sender N) (max_attempts : ℕ) where
  -- what is recorded of one submission
  abbrev pub mark : Submission → Result SendError (Unit {0}) → Tx E D (Unit {0})
  mark s (ok _) = store.mark_submitted s.id
  mark s (err e) = store.mark_failed s.id e.message (e.is_permanent || leb max_attempts s.attempt)

  abbrev go_on : N → (Plan → D → End E D N) → Result E (Unit {0}) × Plan × D → End E D N
  go_on n rest (ok _, plan, d) = rest plan d
  go_on n rest (err e, plan, d) = (err e, plan, d, n)

  -- the loop over the claimed submissions
  unfoldable pub send_all : List Submission → Plan → D → N → End E D N
  send_all [] plan d n = (ok tt, plan, d, n)
  send_all (s ∷ rest) plan d n =
      let (sent, n') = send s n in
      go_on n' (λ plan' d'. send_all rest plan' d' n') (mark s sent plan d)

  abbrev after_claim : N → Result E (List Submission) × Plan × D → End E D N
  after_claim n (ok claimed, plan, d) = send_all claimed plan d n
  after_claim n (err e, plan, d) = (err e, plan, d, n)

  -- `RunOnce`
  unfoldable pub run_once : ℕ → Plan → D → N → End E D N
  unfolding send_all
  run_once batch plan d n = after_claim n (store.claim batch plan d)

  abbrev report : Result E (Unit {0}) → List E → List E
  report (ok _) errors = errors
  report (err e) errors = errors ++ e ∷ []

  -- `Run` for as many polls as there are before the context is cancelled, with the errors reported
  unfoldable pub run : ℕ → ℕ → List E → Plan → D → N → List E × Plan × D × N
  unfolding run_once
  run batch zero errors plan d n = (errors, plan, d, n)
  run batch (suc polls) errors plan d n =
      let (result, plan', d', n') = run_once batch plan d n in
      run batch polls (report result errors) plan' d' n'
