-- ===== src/Platform/Relay/Delivery.antt =====
-- What a relay marks has been delivered, over any store and publisher with the laws of their interfaces.
use test_task_autumn.Prelude.{
  ℕ, zero, suc, String, ◌≡◌, sym, ◌∙◌, ◌⊎◌, inl, inr, true, List, [], ◌∷◌, nat_eq, string_eq,
  Result, ok, err, Result-cases,
}
use test_task_autumn.Database.{Plan}
use test_task_autumn.Platform.Relay.{
  Message, Store, Publisher, End, go_on, mark, publish_all, run_once, report, run,
}

module _ {E D B : Type 0} (store : Store E D) (publisher : Publisher B) (i : String) where
  -- The marks on a message are kept, and a new one stands for a delivery.
  abbrev Sound : D → B → D → B → Type 0
  Sound d b d' b' =
      (store.is_published d i ≡ true → store.is_published d' i ≡ true)
      × (publisher.is_delivered b i ≡ true → publisher.is_delivered b' i ≡ true)
      × (store.is_published d' i ≡ true
          → (store.is_published d i ≡ true) ⊎ (publisher.is_delivered b' i ≡ true))

  Sound-refl : (d : D) (b : B) → Sound d b d b
  Sound-refl d b = (λ h. h, λ h. h, λ h. inl h)

  Sound-trans :
      (d d' d'' : D) (b b' b'' : B) → Sound d b d' b' → Sound d' b' d'' b'' → Sound d b d'' b''
  Sound-trans d d' d'' b b' b'' (p, q, r) (p', q', r') = (
    λ h. p' (p h),
    λ h. q' (q h),
    λ h. elim (r' h) [ inl x ↦ elim (r x) [ inl y ↦ inl y | inr y ↦ inr (q' y) ] | inr x ↦ inr x ],
  )

  mark-Sound :
      (m : Message) (plan : Plan) (d : D) (b : B)
      → Sound d b
          (mark store publisher m (publisher.publish m b).0 plan d).2
          (publisher.publish m b).1
  mark-Sound m plan d b = elim (Result-cases (publisher.publish m b).0) [
    | inl (_, e) ↦ rw e (
      store.mark_published_keeps m.event_id plan d i,
      publisher.publish_keeps m b i,
      λ h. elim (store.mark_published_marks_one m.event_id plan d i h) [
        | inl old ↦ inl old
        | inr same ↦ inr (rw (sym same) (publisher.publish_delivers m b e))
      ],
    )
    | inr (cause, e) ↦
        let keep = store.mark_failed_marks_none m.event_id cause plan d i in
        rw e (λ h. keep ∙ h, publisher.publish_keeps m b i, λ h. inl (sym keep ∙ h))
  ]

  go_on-Sound :
      (d : D) (b b' : B) (rest : Plan → D → End E D B) (o : Result E (Unit {0}) × Plan × D)
      → Sound d b o.2 b'
      → ((plan : Plan) (d' : D) → Sound d' b' (rest plan d').2 (rest plan d').3)
      → Sound d b (go_on store publisher b' rest o).2 (go_on store publisher b' rest o).3
  go_on-Sound d b b' rest (ok _, plan, d') here there = Sound-trans _ _ _ _ _ _ here (there plan d')
  go_on-Sound d b b' rest (err e, plan, d') here there = here

  publish_all-Sound :
      (ms : List Message) (plan : Plan) (d : D) (b : B)
      → Sound d b
          (publish_all store publisher ms plan d b).2
          (publish_all store publisher ms plan d b).3
  unfolding publish_all
  publish_all-Sound [] plan d b = Sound-refl d b
  publish_all-Sound (m ∷ ms) plan d b =
      let (sent, b') = publisher.publish m b in
      go_on-Sound d b b' (λ plan' d'. publish_all store publisher ms plan' d' b')
        (mark store publisher m sent plan d) (mark-Sound m plan d b)
        (λ plan' d'. publish_all-Sound ms plan' d' b')

  run_once-Sound :
      (batch : ℕ) (plan : Plan) (d : D) (b : B)
      → Sound d b
          (run_once store publisher batch plan d b).2
          (run_once store publisher batch plan d b).3
  unfolding run_once
  run_once-Sound batch plan d b =
      let claimed = store.claim batch plan d in
      let keep = store.claim_marks_none batch plan d i in
      let first : Sound d b claimed.2 b = (λ h. keep ∙ h, λ h. h, λ h. inl (sym keep ∙ h)) in
      elim (Result-cases claimed.0) [
        | inl (ms, e) ↦
            rw e (Sound-trans _ _ _ _ _ _ first (publish_all-Sound ms claimed.1 claimed.2 b))
        | inr (error, e) ↦ rw e first
      ]

  run-Sound :
      (batch polls : ℕ) (errors : List E) (plan : Plan) (d : D) (b : B)
      → Sound d b
          (run store publisher batch polls errors plan d b).2
          (run store publisher batch polls errors plan d b).3
  unfolding run
  run-Sound batch zero errors plan d b = Sound-refl d b
  run-Sound batch (suc polls) errors plan d b =
      let (result, plan', d', b') = run_once store publisher batch plan d b in
      Sound-trans _ _ _ _ _ _ (run_once-Sound batch plan d b)
        (run-Sound batch polls (report store publisher result errors) plan' d' b')

-- However long the relay runs, and whatever calls to the store or the publisher fail or lose their
-- reply: a message that is marked as published in the end was so at first, or the broker has it.
pub run_delivers :
    {E D B : Type 0} (store : Store E D) (publisher : Publisher B) (batch polls : ℕ)
    (errors : List E) (plan : Plan) (d : D) (b : B) (i : String)
    → store.is_published (run store publisher batch polls errors plan d b).2 i ≡ true
    → (store.is_published d i ≡ true)
      ⊎ (publisher.is_delivered (run store publisher batch polls errors plan d b).3 i ≡ true)
run_delivers store publisher batch polls errors plan d b i h =
    (run-Sound store publisher i batch polls errors plan d b).2 h
