-- ===== src/Order/Postgres/RoundTrip.antt =====
-- An order that was created is read back.
use test_task_autumn.Prelude.{◌≡◌, sym, ◌∙◌, inl, inr, false, arith, eq_refl, nat_eq, string_eq, ok}
use mathlib.Core.Path.{subst}
use test_task_autumn.Database.{Plan}
use test_task_autumn.Order.Service.Ports.{CreateOrderRecord}
use test_task_autumn.Order.Memory as Memory
use test_task_autumn.Order.Memory.{Store, record_key, with_order, key_eq, order_at}
use test_task_autumn.Order.Memory.Laws.{IsValid}
use test_task_autumn.Order.Postgres.Tables.{OrderTables}
use test_task_autumn.Order.Postgres.Rows.{Json}
use test_task_autumn.Order.Postgres.View.{Shows}
use test_task_autumn.Order.Postgres.NewRows.{Fits}
use test_task_autumn.Order.Postgres.Refines.{create_order_refines}
use test_task_autumn.Order.Postgres.Reads.{Reads, get_order_refines}
use test_task_autumn.Order.Postgres.{create_order, get_order}

get_created :
    (r : CreateOrderRecord) (s : Store)
    → (Memory.create_order r s).0 ≡ ok (record { order = r.order; reused_idempotency_key = false })
    → Memory.get_order r.order.id r.order.user_id (Memory.create_order r s).1 ≡ ok r.order
unfolding Memory.create_order Memory.get_order Memory.find_by_key
get_created r s h = ground (arith, eq_refl r.order.id, eq_refl r.order.user_id)

-- For tables that show a valid memory store and an order that the columns can hold: where `CreateOrder`
-- returned the order as a new one, whatever faults came, `GetOrder` for its user gives it back with
-- its items and modifiers, or reports an error of the database.
pub get_order-create_order :
    (json : Json) (r : CreateOrderRecord) (plan plan' : Plan) (t : OrderTables) (s : Store)
    → Shows json t s
    → IsValid s
    → Fits json r s
    → (create_order json r plan t).0
      ≡ ok (record { order = r.order; reused_idempotency_key = false })
    → Reads json
        (get_order json r.order.id r.order.user_id plan' (create_order json r plan t).2)
        (create_order json r plan t).2
        (ok r.order)
get_order-create_order json r plan plan' t s shows v fits made =
    elim (create_order_refines json r plan t s shows v fits) [
      | inl ((e, failed), _) ↦ cc
      | inr (same, shown) ↦
          subst
            (Reads json
              (get_order json r.order.id r.order.user_id plan' (create_order json r plan t).2)
              (create_order json r plan t).2)
            (get_created r s (sym same ∙ made))
            (get_order_refines json r.order.id r.order.user_id plan' (create_order json r plan t).2
              (Memory.create_order r s).1 shown)
    ]
