-- ===== src/Platform/Claims.antt =====
-- The claim statement of the outbox and of the submissions: `UPDATE … WHERE id IN (SELECT id … WHERE
-- condition ORDER BY time, id LIMIT n FOR UPDATE SKIP LOCKED) RETURNING …` over the rows of a table.
-- A statement is one step, so that it finds no row locked by another. The database does not fix
-- the order of the returned rows; here it is that of the table.
pub mod Laws
use test_task_autumn.Prelude.{
  ℕ, zero, suc, ◌+◌, ◌-◌, ◌*◌, ◌/◌, ◌%◌, ◌^◌, ◌≤◌, ◌<◌, String, ◌<>◌, ◌≡◌, refl, sym, ap, ◌∙◌, ◌≢◌,
  ◌↔◌, ◌⊎◌, inl, inr, Bool, true, false, not, ◌&&◌, ◌||◌, Option, none, some, List, [], ◌∷◌, ◌++◌,
  map, arith, eq_iff, eq_refl, ltb, leb, if◌then◌else◌, Eq, ◌==◌, ◌!=◌, nat_eq, string_eq,
  Bool-cases, Option-cases, Map, empty_map, insert, length, is_empty, take, keep_if, All,
  length-append, is_empty-append_cons, length-take-le, contains, Result, ok, err, ◌>>=◌, >>=-eq-ok,
  Result-cases, ◌>>◌, fail_if,
}

module _ {A : Type 0} (id : A → String) where
  abbrev pub ids : List A → List String
  ids = map id

  -- the row with this id
  unfoldable pub find : String → List A → Option A
  find i [] = none
  find i (r ∷ rs) = if id r == i then some r else find i rs

  -- The primary key: no id stands twice.
  abbrev pub IsKeyed : List A → Type 0
  IsKeyed [] = Unit
  IsKeyed (r ∷ rs) = (contains (ids rs) (id r) ≡ false) × IsKeyed rs

  module _ (before : A → A → Bool) where
    unfoldable pub insert_row : A → List A → List A
    insert_row r [] = r ∷ []
    insert_row r (s ∷ ss) = if before r s then r ∷ s ∷ ss else s ∷ insert_row r ss

    unfoldable pub sort_rows : List A → List A
    unfolding insert_row
    sort_rows [] = []
    sort_rows (r ∷ rs) = insert_row r (sort_rows rs)

    -- the inner `SELECT`
    unfoldable pub selected : (A → Bool) → ℕ → List A → List String
    unfolding sort_rows
    selected test limit rows = ids (take limit (sort_rows (keep_if test rows)))

    -- the `UPDATE`
    unfoldable pub claim : (A → Bool) → (A → A) → ℕ → List A → List A
    unfolding selected
    claim test lock limit rows =
        map (λ r. if contains (selected test limit rows) (id r) then lock r else r) rows

    -- `RETURNING`
    unfoldable pub returned : (A → Bool) → (A → A) → ℕ → List A → List A
    unfolding selected
    returned test lock limit rows =
        map lock (keep_if (λ r. contains (selected test limit rows) (id r)) rows)

  -- `UPDATE … WHERE condition`: the rows after it, and the number of rows affected
  unfoldable pub update_where : (A → Bool) → (A → A) → List A → List A
  update_where test change = map (λ r. if test r then change r else r)

  unfoldable pub affected : (A → Bool) → List A → ℕ
  affected test rows = length (keep_if test rows)
