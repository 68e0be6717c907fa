-- ===== src/Order/Postgres/Refines.antt =====
-- The tables and the statements do what the memory store does.
use test_task_autumn.Prelude.{
  String, ◌≡◌, refl, sym, ap, ◌∙◌, ◌⊎◌, inl, inr, none, [], arith, nat_eq, string_eq, Option-cases,
  Result, ok, err, Result-cases,
}
use mathlib.Core.Path.{subst}
use test_task_autumn.Database.Honest.{Settled}
use test_task_autumn.Order.Postgres.Faults.{create_order_settles}
use test_task_autumn.Database.{Plan, Tx, transaction, ◌>>=◌}
use test_task_autumn.Order.Errors.{Error, database}
use test_task_autumn.Order.Service.Ports.{CreateOrderRecord}
use test_task_autumn.Order.Memory as Memory
use test_task_autumn.Order.Memory.{
  Store, IdempotencyKey, IdempotencyRecord, InboxRecord, key_beq, key_beq_iff, key_eq, record_key,
  order_at, with_order, with_event,
}
use test_task_autumn.Order.Memory.Laws.{IsValid}
use test_task_autumn.Order.Postgres.Tables.{OrderTables}
use test_task_autumn.Order.Postgres.Rows.{Json}
use test_task_autumn.Order.Postgres.View.{Shows}
use test_task_autumn.Order.Postgres.{create_body, create_order}
use test_task_autumn.Order.Postgres.NewRows.{
  find_by_key_shown, Fits, create_new_runs, with_rows-Shows,
}

module _ (json : Json) where
  -- What a call with no fault returns and leaves is what the memory store returns, and shows what that
  -- leaves.
  abbrev pub Refines :
      {A : Type 0} → Result Error A × Plan × OrderTables → Result Error A × Store → Type 0
  Refines o m = (o.0 ≡ m.0) × Shows json o.2 m.1

  new_of_none :
      (s : Store) (k : IdempotencyKey) (fingerprint : String)
      → Memory.find_by_key s k fingerprint ≡ ok none
      → s.idempotency k ≡ none
  unfolding Memory.find_by_key
  new_of_none s k fingerprint h = ground arith

  create_order_clean :
      (r : CreateOrderRecord) (t : OrderTables) (s : Store)
      → Shows json t s
      → IsValid s
      → Fits json r s
      → Refines (create_order json r [] t) (Memory.create_order r s)
  unfolding create_order create_body Memory.create_order ◌>>=◌ transaction
  create_order_clean r t s shows v fits =
      let looked = find_by_key_shown json (record_key r) r.request_fingerprint t s shows v in
      elim (Result-cases (Memory.find_by_key s (record_key r) r.request_fingerprint)) [
        | inr (e, q) ↦ rw (looked, q, Memory.create_order) (refl, shows)
        | inl (found, q) ↦ elim (Option-cases found) [
          | inr (x, p) ↦ rw (looked, q, p, Memory.create_order) (refl, shows)
          | inl p ↦
              let absent = new_of_none s (record_key r) r.request_fingerprint (q ∙ ap ok p) in
              let (rows, run, read, own, others) = create_new_runs json r t s shows fits absent in
              rw (looked, q, p, Memory.create_order, run)
                (refl, with_rows-Shows json r rows t s shows fits.fresh read own others)
        ]
      ]

  -- The tables after a call: those before it, which an error reports, or such as show the store `s'`,
  -- where the call returns the result of the memory store or an error.
  abbrev pub UnderFaults :
      {A : Type 0}
      → Result Error A × Plan × OrderTables
      → OrderTables
      → Result Error A × Store
      → Type 0
  UnderFaults o t m =
      (((e : Error) × (o.0 ≡ err e)) × ((o.2 ≡ t) ⊎ Shows json o.2 m.1))
      ⊎ ((o.0 ≡ m.0) × Shows json o.2 m.1)

  pub Settled-Refines :
      {A : Type 0} (body : Tx Error OrderTables A) (o : Result Error A × Plan × OrderTables)
      (t : OrderTables) (m : Result Error A × Store)
      → Settled database body o t
      → Refines (transaction database body [] t) m
      → UnderFaults o t m
  Settled-Refines body o t m (inl (kept, failed)) clean = inl (failed, inl kept)
  Settled-Refines body o t m (inr (same, inl result)) (a, shows) =
      inr (result ∙ a, subst (λ x. Shows json x m.1) (sym same) shows)
  Settled-Refines body o t m (inr (same, inr down)) (a, shows) =
      inl ((database, down), inr (subst (λ x. Shows json x m.1) (sym same) shows))

  -- For tables that show a valid memory store and an order that the columns can hold, under any faults:
  -- `CreateOrder` reports an error, and leaves the tables or such as show what the memory store leaves;
  -- or it returns what the memory store returns, and leaves tables that show what that leaves.
  pub create_order_refines :
      (r : CreateOrderRecord) (plan : Plan) (t : OrderTables) (s : Store)
      → Shows json t s
      → IsValid s
      → Fits json r s
      → UnderFaults (create_order json r plan t) t (Memory.create_order r s)
  unfolding create_order
  create_order_refines r plan t s shows v fits =
      Settled-Refines (create_body json r) (create_order json r plan t) t (Memory.create_order r s)
        (create_order_settles json r plan t) (create_order_clean r t s shows v fits)
