-- ===== src/Order/Postgres/Reads.antt =====
-- The read of an order for its user, statement by statement.
use test_task_autumn.Prelude.{
  String, ◌≡◌, refl, ◌⊎◌, inl, inr, Option, none, some, [], ◌∷◌, if◌then◌else◌, ◌==◌, ◌!=◌, nat_eq,
  string_eq, Bool-cases, Result, ok, err,
}
use test_task_autumn.Database.{Plan, fine, fails, lost, pure, throw, statement, query, ◌>>=◌}
use test_task_autumn.Order.Errors.{Error, order_not_found, database}
use test_task_autumn.Order.Domain.{Order}
use test_task_autumn.Order.Memory as Memory
use test_task_autumn.Order.Memory.{Store}
use test_task_autumn.Order.Postgres.Tables.{OrderRow, OrderTables}
use test_task_autumn.Order.Postgres.Rows.{Json, rows_of}
use test_task_autumn.Order.Postgres.View.{ShowsOrder, Shows}
use test_task_autumn.Order.Postgres.{load_items, load_row, row_for_user, get_order}

-- A query fails, or reads; it never writes.
query_cases :
    {D A : Type 0} (f : D → A) (plan : Plan) (d : D)
    → (left : Plan) × ((query database f plan d ≡ (err database, left, d))
        ⊎ (query database f plan d ≡ (ok (f d), left, d)))
unfolding statement
query_cases f [] d = ([], inr refl)
query_cases f (fine ∷ plan) d = (plan, inr refl)
query_cases f (fails ∷ plan) d = (plan, inl refl)
query_cases f (lost ∷ plan) d = (plan, inl refl)

module _ (json : Json) where
  -- A read leaves the tables alone, and returns `expected` or reports the database.
  abbrev pub Reads :
      Result Error Order × Plan × OrderTables → OrderTables → Result Error Order → Type 0
  Reads o t expected = ((o.0 ≡ err database) ⊎ (o.0 ≡ expected)) × (o.2 ≡ t)

  found-Reads :
      (id user : String) (plan : Plan) (t : OrderTables) (row : Option OrderRow)
      (found : Option Order)
      → ShowsOrder json id row (rows_of id t.items) found
      → Reads
          (load_row json id
            (elim row [ none ↦ none | some r ↦ if r.user_id == user then some r else none ])
            plan
            t)
          t
          (elim found [
            | none ↦ err order_not_found
            | some o ↦ if o.user_id != user then err order_not_found else ok o
          ])
  unfolding throw pure load_items ◌>>=◌
  found-Reads id user plan t none none shows = (inr refl, refl)
  found-Reads id user plan t none (some o) shows = absurd shows
  found-Reads id user plan t (some row) none shows = absurd shows
  found-Reads id user plan t (some row) (some o) (read, same, own) =
      elim (Bool-cases (o.user_id == user)) [
        | inr other ↦ rw (same, other) (inr refl, refl)
        | inl mine ↦
            let (left, ran) = query_cases (λ x. rows_of id x.items) plan t in
            elim ran [
              | inl down ↦ rw (same, mine, down) (inl refl, refl)
              | inr fine_ ↦ rw (same, mine, fine_, read, ← own) (inr refl, refl)
            ]
      ]

  -- For tables that show a memory store, and under any faults, `GetOrder` leaves the tables alone, and
  -- returns what the memory store returns or reports an error of the database.
  pub get_order_refines :
      (id user : String) (plan : Plan) (t : OrderTables) (s : Store)
      → Shows json t s
      → Reads (get_order json id user plan t) t (Memory.get_order id user s)
  unfolding get_order Memory.get_order ◌>>=◌
  get_order_refines id user plan t s shows =
      let (left, ran) = query_cases (row_for_user json id user) plan t in
      elim ran [
        | inl down ↦ rw down (inl refl, refl)
        | inr fine_ ↦
            rw (fine_) (found-Reads id user left t (t.orders id) (s.orders id) (shows.orders id))
      ]
