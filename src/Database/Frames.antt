-- ===== src/Database/Frames.antt =====
-- The tables that a call can leave, whatever fails.
use test_task_autumn.Prelude.{
  ◌≡◌, refl, ◌⊎◌, inl, inr, Bool, true, false, [], ◌∷◌, nat_eq, string_eq, Result, ok, err,
}
use test_task_autumn.Database.{
  fine, fails, lost, Plan, Tx, finish, transaction, require, pure, throw,
}

module _ {E D A : Type 0} (down : E) where
  -- A finished body leaves the tables of the beginning or those that the body left.
  finish_frame :
      (d : D) (o : Result E A × Plan × D) → ((finish down d o).2 ≡ d) ⊎ ((finish down d o).2 ≡ o.2)
  finish_frame d (err e, plan, d') = inl refl
  finish_frame d (ok a, [], d') = inr refl
  finish_frame d (ok a, fine ∷ plan, d') = inr refl
  finish_frame d (ok a, fails ∷ plan, d') = inl refl
  finish_frame d (ok a, lost ∷ plan, d') = inr refl

  pub transaction_frame :
      (body : Tx E D A) (plan : Plan) (d : D)
      → ((transaction down body plan d).2 ≡ d)
        ⊎ ((plan' : Plan) × ((transaction down body plan d).2 ≡ (body plan' d).2))
  unfolding transaction
  transaction_frame body [] d = elim (finish_frame d (body [] d)) [
    | inl e ↦ inl e
    | inr e ↦ inr ([], e)
  ]
  transaction_frame body (fine ∷ plan) d = elim (finish_frame d (body plan d)) [
    | inl e ↦ inl e
    | inr e ↦ inr (plan, e)
  ]
  transaction_frame body (fails ∷ plan) d = inl refl
  transaction_frame body (lost ∷ plan) d = inl refl

pub require_frame :
    {E D : Type 0} (b : Bool) (e : E) (plan : Plan) (d : D) → (require b e plan d).2 ≡ d
unfolding pure throw
require_frame true e plan d = refl
require_frame false e plan d = refl
