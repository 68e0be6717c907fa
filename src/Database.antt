-- ===== src/Database.antt =====
-- database/sql as the stores use it. A statement reads or writes the tables `D` at once and may be
-- made to fail by its environment; `BeginTx`, `Commit` and `Rollback` bracket a body of statements,
-- with `defer rollbackUnlessCommitted` on every early return.
pub mod Honest
pub mod Frames
use test_task_autumn.Prelude.{
  ℕ, zero, suc, ◌+◌, ◌-◌, ◌*◌, ◌/◌, ◌%◌, ◌^◌, ◌≤◌, ◌<◌, String, ◌<>◌, ◌≡◌, refl, sym, ap, ◌∙◌, ◌≢◌,
  ◌↔◌, ◌⊎◌, inl, inr, Bool, true, false, not, ◌&&◌, ◌||◌, Option, none, some, List, [], ◌∷◌, ◌++◌,
  map, arith, eq_iff, eq_refl, ltb, leb, if◌then◌else◌, Eq, ◌==◌, ◌!=◌, nat_eq, string_eq,
  Bool-cases, Option-cases, Map, empty_map, insert, length, is_empty, take, keep_if, All,
  length-append, is_empty-append_cons, length-take-le, contains, Result, ok, err, >>=-eq-ok,
  Result-cases, fail_if,
}

-- What becomes of one call to the database. A commit may reach the database and its reply be lost.
pub data Fault : Type 0 where
  fine fails lost : Fault

-- The faults of the calls to come, in turn; past the end every call is fine.
abbrev pub Plan : Type 0
Plan = List Fault

-- A body of statements inside a transaction.
abbrev pub Tx : Type 0 → Type 0 → Type 0 → Type 0
Tx E D A = Plan → D → Result E A × Plan × D

module _ {E D A : Type 0} where
  unfoldable pub pure : A → Tx E D A
  pure a plan d = (ok a, plan, d)

  unfoldable pub throw : E → Tx E D A
  throw e plan d = (err e, plan, d)

  abbrev after_statement : Plan → D → Result E (A × D) → Result E A × Plan × D
  after_statement plan d (err e) = (err e, plan, d)
  after_statement plan d (ok (a, d')) = (ok a, plan, d')

  -- one statement; `down` is the error of a failed call
  unfoldable pub statement : E → (D → Result E (A × D)) → Tx E D A
  statement down f [] d = after_statement [] d (f d)
  statement down f (fine ∷ plan) d = after_statement plan d (f d)
  statement down f (fails ∷ plan) d = (err down, plan, d)
  statement down f (lost ∷ plan) d = (err down, plan, d)

  -- one statement outside a transaction, which commits by itself
  unfoldable pub execute : E → (D → A × D) → Tx E D A
  execute down f [] d = let (a, d') = f d in (ok a, [], d')
  execute down f (fine ∷ plan) d = let (a, d') = f d in (ok a, plan, d')
  execute down f (fails ∷ plan) d = (err down, plan, d)
  execute down f (lost ∷ plan) d = (err down, plan, (f d).1)

  -- commit, or roll back to the tables `d` of the beginning
  abbrev pub finish : E → D → Result E A × Plan × D → Result E A × Plan × D
  finish down d (err e, plan, _) = (err e, plan, d)
  finish down d (ok a, [], d') = (ok a, [], d')
  finish down d (ok a, fine ∷ plan, d') = (ok a, plan, d')
  finish down d (ok a, fails ∷ plan, d') = (err down, plan, d)
  finish down d (ok a, lost ∷ plan, d') = (err down, plan, d')

  unfoldable pub transaction : E → Tx E D A → Tx E D A
  transaction down body [] d = finish down d (body [] d)
  transaction down body (fine ∷ plan) d = finish down d (body plan d)
  transaction down body (fails ∷ plan) d = (err down, plan, d)
  transaction down body (lost ∷ plan) d = (err down, plan, d)

module _ {E D A B : Type 0} where
  abbrev continue : (A → Tx E D B) → Result E A × Plan × D → Result E B × Plan × D
  continue f (ok a, plan, d) = f a plan d
  continue f (err e, plan, d) = (err e, plan, d)

  infixl 5 ◌>>=◌
  unfoldable pub ◌>>=◌ : Tx E D A → (A → Tx E D B) → Tx E D B
  unfolding pure throw statement
  ◌>>=◌ m f plan d = continue f (m plan d)

module _ {E D B : Type 0} where
  infixl 5 ◌>>◌
  abbrev pub ◌>>◌ : Tx E D (Unit {0}) → Tx E D B → Tx E D B
  m >> k = m >>= λ _. k

module _ {E D A : Type 0} where
  -- a query
  abbrev pub query : E → (D → A) → Tx E D A
  query down f = statement down (λ d. ok (f d, d))

  abbrev pub from_result : Result E A → Tx E D A
  from_result (ok a) = pure a
  from_result (err e) = throw e

module _ {E D : Type 0} where
  -- an `INSERT` or `UPDATE`; `none` is a violated constraint
  abbrev pub write : E → (D → Option D) → Tx E D (Unit {0})
  write down f = statement down (λ d. elim (f d) [ none ↦ err down | some d' ↦ ok (tt, d') ])

  abbrev pub require : Bool → E → Tx E D (Unit {0})
  require true e = pure tt
  require false e = throw e
