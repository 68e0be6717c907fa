-- ===== src/Platform/Relay.antt =====
-- internal/platform/outbox/relay.go: the relay between an outbox store and a publisher, both of them
-- interfaces. `copyMessage` keeps a message as it is.
pub mod Delivery
use test_task_autumn.Prelude.{
  ℕ, zero, suc, ◌+◌, ◌-◌, ◌*◌, ◌/◌, ◌%◌, ◌^◌, ◌≤◌, ◌<◌, String, ◌<>◌, ◌≡◌, refl, sym, ap, ◌∙◌, ◌≢◌,
  ◌↔◌, ◌⊎◌, inl, inr, Bool, true, false, not, ◌&&◌, ◌||◌, Option, none, some, List, [], ◌∷◌, ◌++◌,
  map, arith, eq_iff, eq_refl, ltb, leb, if◌then◌else◌, Eq, ◌==◌, ◌!=◌, nat_eq, string_eq,
  Bool-cases, Option-cases, Map, empty_map, insert, length, is_empty, take, keep_if, All,
  length-append, is_empty-append_cons, length-take-le, contains, Result, ok, err, ◌>>=◌, >>=-eq-ok,
  Result-cases, ◌>>◌, fail_if,
}
use test_task_autumn.Database.{Plan, Tx}

pub record Message : Type 0 where
  pub event_id : String
  pub topic : String
  pub key : String
  pub value : String
  pub headers : List (String × String)

-- `Store`, and what the relay relies on. `is_published` is the mark of a message.
pub record Store (E D : Type 0) : Type 0 where
  pub claim : ℕ → Tx E D (List Message)
  pub mark_published : String → Tx E D (Unit {0})
  pub mark_failed : String → String → Tx E D (Unit {0})
  pub is_published : D → String → Bool
  pub claim_marks_none :
      (limit : ℕ) (plan : Plan) (d : D) (i : String)
      → is_published (claim limit plan d).2 i ≡ is_published d i
  pub mark_failed_marks_none :
      (event cause : String) (plan : Plan) (d : D) (i : String)
      → is_published (mark_failed event cause plan d).2 i ≡ is_published d i
  pub mark_published_keeps :
      (event : String) (plan : Plan) (d : D) (i : String)
      → is_published d i ≡ true
      → is_published (mark_published event plan d).2 i ≡ true
  pub mark_published_marks_one :
      (event : String) (plan : Plan) (d : D) (i : String)
      → is_published (mark_published event plan d).2 i ≡ true
      → (is_published d i ≡ true) ⊎ (event ≡ i)

-- `Publisher`, over a broker whose state is a `B`: acknowledged messages stay delivered.
pub record Publisher (B : Type 0) : Type 0 where
  pub publish : Message → B → Result String (Unit {0}) × B
  pub is_delivered : B → String → Bool
  pub publish_keeps :
      (m : Message) (b : B) (i : String)
      → is_delivered b i ≡ true
      → is_delivered (publish m b).1 i ≡ true
  pub publish_delivers :
      (m : Message) (b : B)
      → (publish m b).0 ≡ ok tt
      → is_delivered (publish m b).1 m.event_id ≡ true

-- the result, the faults that are left, the store and the broker
abbrev pub End : (E D B : Type 0) → Type 0
End E D B = Result E (Unit {0}) × Plan × D × B

module _ {E D B : Type 0} (store : Store E D) (publisher : Publisher B) where
  abbrev mark : Message → Result String (Unit {0}) → Tx E D (Unit {0})
  mark m (ok _) = store.mark_published m.event_id
  mark m (err cause) = store.mark_failed m.event_id cause

  abbrev go_on : B → (Plan → D → End E D B) → Result E (Unit {0}) × Plan × D → End E D B
  go_on b rest (ok _, plan, d) = rest plan d
  go_on b rest (err e, plan, d) = (err e, plan, d, b)

  -- the loop over the claimed messages
  unfoldable pub publish_all : List Message → Plan → D → B → End E D B
  publish_all [] plan d b = (ok tt, plan, d, b)
  publish_all (m ∷ ms) plan d b =
      let (sent, b') = publisher.publish m b in
      go_on b' (λ plan' d'. publish_all ms plan' d' b') (mark m sent plan d)

  abbrev after_claim : B → Result E (List Message) × Plan × D → End E D B
  after_claim b (ok ms, plan, d) = publish_all ms plan d b
  after_claim b (err e, plan, d) = (err e, plan, d, b)

  -- `RunOnce`
  unfoldable pub run_once : ℕ → Plan → D → B → End E D B
  unfolding publish_all
  run_once batch plan d b = after_claim b (store.claim batch plan d)

  abbrev report : Result E (Unit {0}) → List E → List E
  report (ok _) errors = errors
  report (err e) errors = errors ++ e ∷ []

  -- `Run` for as many polls as there are before the context is cancelled, with the errors reported
  unfoldable pub run : ℕ → ℕ → List E → Plan → D → B → List E × Plan × D × B
  unfolding run_once
  run batch zero errors plan d b = (errors, plan, d, b)
  run batch (suc polls) errors plan d b =
      let (result, plan', d', b') = run_once batch plan d b in
      run batch polls (report result errors) plan' d' b'
