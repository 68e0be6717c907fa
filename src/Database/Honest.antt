-- ===== src/Database/Honest.antt =====
-- Faults stop a transaction, and never change what it does.
use test_task_autumn.Prelude.{
  ◌≡◌, refl, sym, ◌⊎◌, inl, inr, Bool, true, false, [], ◌∷◌, if◌then◌else◌, nat_eq, string_eq,
  Result, ok, err, Result-cases,
}
use test_task_autumn.Database.{
  fine, fails, lost, Plan, Tx, pure, throw, statement, finish, transaction, from_result, require,
  continue, ◌>>=◌,
}
use mathlib.Core.Path.{subst}

-- Under any plan a body fails, or ends as it does with no fault.
pub record IsHonest {E D A : Type 0} (m : Tx E D A) : Type 0 where
  pub ends :
      (plan : Plan) (d : D)
      → ((e : E) × ((m plan d).0 ≡ err e))
        ⊎ (((m plan d).0 ≡ (m [] d).0) × ((m plan d).2 ≡ (m [] d).2))
  pub clean : (d : D) → (m [] d).1 ≡ []

module _ {E D A : Type 0} where
  pub IsHonest-pure : (a : A) → IsHonest {E = E} {D = D} (pure a)
  unfolding pure
  IsHonest-pure a = record { ends = λ plan d. inr (refl, refl); clean = λ d. refl }

  pub IsHonest-throw : (e : E) → IsHonest {D = D} {A = A} (throw e)
  unfolding throw
  IsHonest-throw e = record { ends = λ plan d. inl (e, refl); clean = λ d. refl }

  statement_ends :
      (down : E) (f : D → Result E (A × D)) (plan : Plan) (d : D)
      → ((e : E) × ((statement down f plan d).0 ≡ err e))
        ⊎ (((statement down f plan d).0 ≡ (statement down f [] d).0)
            × ((statement down f plan d).2 ≡ (statement down f [] d).2))
  unfolding statement
  statement_ends down f [] d = inr (refl, refl)
  statement_ends down f (fine ∷ plan) d = elim (Result-cases (f d)) [
    | inl (_, e) ↦ inr (rw e, rw e)
    | inr (_, e) ↦ inr (rw e, rw e)
  ]
  statement_ends down f (fails ∷ plan) d = inl (down, refl)
  statement_ends down f (lost ∷ plan) d = inl (down, refl)

  statement_clean : (down : E) (f : D → Result E (A × D)) (d : D) → (statement down f [] d).1 ≡ []
  unfolding statement
  statement_clean down f d = elim (Result-cases (f d)) [ inl (_, e) ↦ rw e | inr (_, e) ↦ rw e ]

  pub IsHonest-statement : (down : E) (f : D → Result E (A × D)) → IsHonest (statement down f)
  IsHonest-statement down f = record {
    ends = statement_ends down f;
    clean = statement_clean down f;
  }

  pub IsHonest-from_result : (r : Result E A) → IsHonest {D = D} (from_result r)
  IsHonest-from_result (ok a) = IsHonest-pure a
  IsHonest-from_result (err e) = IsHonest-throw e

  pub IsHonest-if :
      (b : Bool) (m n : Tx E D A) → IsHonest m → IsHonest n → IsHonest (if b then m else n)
  IsHonest-if true m n hm hn = hm
  IsHonest-if false m n hm hn = hn

pub IsHonest-require : {E D : Type 0} (b : Bool) (e : E) → IsHonest {D = D} (require b e)
IsHonest-require true e = IsHonest-pure tt
IsHonest-require false e = IsHonest-throw e

-- Two ends of a body: the one of a plan, and the one with no fault.
abbrev Agree : {E D A : Type 0} → Result E A × Plan × D → Result E A × Plan × D → Type 0
Agree {E} o o' = ((e : E) × (o.0 ≡ err e)) ⊎ ((o.0 ≡ o'.0) × (o.2 ≡ o'.2))

module _ {E D A B : Type 0} (f : A → Tx E D B) (honest : (a : A) → IsHonest (f a)) where
  continue_ends :
      (o o' : Result E A × Plan × D) → Agree o o' → o'.1 ≡ [] → Agree (continue f o) (continue f o')
  continue_ends (err e, p, d) o' h c = inl (e, refl)
  continue_ends (ok a, p, d) (err e, p', d') (inl (x, q)) c = cc
  continue_ends (ok a, p, d) (err e, p', d') (inr (q, _)) c = cc
  continue_ends (ok a, p, d) (ok a', p', d') (inl (x, q)) c = cc
  continue_ends (ok a, p, d) (ok a', p', d') (inr (q, same)) c =
      let values : a ≡ a' = cc in
      subst (λ t. Agree (f a p d) (f t p' d')) values
        (subst (λ t. Agree (f a p d) (f a t d')) (sym c)
          (subst (λ t. Agree (f a p d) (f a [] t)) same ((honest a).ends p d)))

  continue_clean : (o : Result E A × Plan × D) → o.1 ≡ [] → (continue f o).1 ≡ []
  continue_clean (err e, p, d) c = c
  continue_clean (ok a, p, d) c = rw c ((honest a).clean d)

  pub IsHonest-bind : (m : Tx E D A) → IsHonest m → IsHonest (m >>= f)
  unfolding ◌>>=◌
  IsHonest-bind m h = record {
    ends = λ plan d. continue_ends (m plan d) (m [] d) (h.ends plan d) (h.clean d);
    clean = λ d. continue_clean (m [] d) (h.clean d);
  }

pub ruleset honest_rules = (
  IsHonest-pure, IsHonest-throw, IsHonest-statement, IsHonest-from_result, IsHonest-require,
  IsHonest-if, IsHonest-bind,
)

module _ {E D A : Type 0} (down : E) where
  -- The tables after a transaction: those before it, or those that it leaves with no fault.
  abbrev pub Settled : Tx E D A → Result E A × Plan × D → D → Type 0
  Settled body o d =
      ((o.2 ≡ d) × ((e : E) × (o.0 ≡ err e)))
      ⊎ ((o.2 ≡ (transaction down body [] d).2)
          × ((o.0 ≡ (transaction down body [] d).0) ⊎ (o.0 ≡ err down)))

  finish_settles :
      (d : D) (o o' : Result E A × Plan × D)
      → Agree o o'
      → o'.1 ≡ []
      → (((finish down d o).2 ≡ d) × ((e : E) × ((finish down d o).0 ≡ err e)))
        ⊎ (((finish down d o).2 ≡ (finish down d o').2)
            × (((finish down d o).0 ≡ (finish down d o').0) ⊎ ((finish down d o).0 ≡ err down)))
  finish_settles d (err e, p, t) o' h c = inl (refl, (e, refl))
  finish_settles d (ok a, p, t) (err e, p', t') (inl (x, q)) c = cc
  finish_settles d (ok a, p, t) (err e, p', t') (inr (q, _)) c = cc
  finish_settles d (ok a, p, t) (ok a', p', t') (inl (x, q)) c = cc
  finish_settles d (ok a, [], t) (ok a', p', t') (inr (q, same)) c = rw c (inr (same, inl q))
  finish_settles d (ok a, fine ∷ p, t) (ok a', p', t') (inr (q, same)) c = rw c (inr (same, inl q))
  finish_settles d (ok a, fails ∷ p, t) (ok a', p', t') (inr (q, same)) c = inl (refl, (down, refl))
  finish_settles d (ok a, lost ∷ p, t) (ok a', p', t') (inr (q, same)) c =
      rw c (inr (same, inr refl))

  -- A transaction over an honest body either fails and leaves the tables as they were, or leaves
  -- the tables that it leaves with no fault, and gives the result of that or a lost reply.
  pub transaction-Settled :
      (body : Tx E D A) (plan : Plan) (d : D)
      → IsHonest body
      → Settled body (transaction down body plan d) d
  unfolding transaction
  transaction-Settled body [] d h = inr (refl, inl refl)
  transaction-Settled body (fine ∷ plan) d h =
      finish_settles d (body plan d) (body [] d) (h.ends plan d) (h.clean d)
  transaction-Settled body (fails ∷ plan) d h = inl (refl, (down, refl))
  transaction-Settled body (lost ∷ plan) d h = inl (refl, (down, refl))
