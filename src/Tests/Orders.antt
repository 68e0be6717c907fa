-- ===== src/Tests/Orders.antt =====
-- The order domain on concrete orders.
use test_task_autumn.Prelude.{
  ◌-◌, ◌^◌, ◌≤◌, ◌≡◌, refl, ◌↔◌, inl, inr, true, List, [], ◌∷◌, arith, eq_iff, nat_eq, string_eq,
  ok, err,
}
use test_task_autumn.Prelude.Words.{mul64, int64, is_positive64}
use test_task_autumn.Order.Status.{
  Status, pending, accepted, preparing, ready, completed, cancelled, can_transition,
}
use test_task_autumn.Order.Errors.{invalid_order_item}
use test_task_autumn.Order.Domain.{
  NewOrderItemInput, NewOrderInput, Order, is_bad_item, line_total, build_items, new_order,
  transition_to,
}
use test_task_autumn.Order.Domain.Totals.{
  Snapshot, exact_total, new_order-Snapshot, new_order_total, new_order_first_bad,
}
use test_task_autumn.Order.Domain.Lifecycle.{run, version-run, run_terminal}
use test_task_autumn.Order.Service.{order_created}
use test_task_autumn.Partner.Intake.{validate_payload}
use test_task_autumn.Partner.Intake.Contract.{new_order_accepted}

program : Unit {0}
unfolding mul64 int64 can_transition is_bad_item line_total build_items new_order transition_to run
    validate_payload
program = tt

abbrev pizza : NewOrderItemInput
pizza = record {
  menu_item_id = "pizza";
  name = "Pizza";
  unit_price_cents = 1200;
  quantity = 2;
  modifier_item_ids = [];
}

abbrev tea : NewOrderItemInput
tea = record pizza { menu_item_id = "tea"; name = "Tea"; unit_price_cents = 250; quantity = 1 }

abbrev dinner : NewOrderInput
dinner = record {
  order_id = "ord-1";
  user_id = "usr-1";
  restaurant_id = "rst-1";
  items = pizza ∷ tea ∷ [];
}

abbrev made : Order
made = record {
  id = "ord-1";
  user_id = "usr-1";
  restaurant_id = "rst-1";
  status = pending;
  items =
      record {
        menu_item_id = "pizza";
        name = "Pizza";
        unit_price_cents = 1200;
        quantity = 2;
        modifier_item_ids = [];
        line_total_cents = 2400;
      }
      ∷ record {
        menu_item_id = "tea";
        name = "Tea";
        unit_price_cents = 250;
        quantity = 1;
        modifier_item_ids = [];
        line_total_cents = 250;
      }
      ∷ [];
  total_cents = 2650;
  version = 1;
}

dinner_test : new_order dinner ≡ ok made
unfolding program
dinner_test = refl

-- quantity -1
abbrev debt : NewOrderItemInput
debt = record tea { quantity = 2 ^ 32 - 1 }

debt_refused : new_order (record dinner { items = pizza ∷ debt ∷ [] }) ≡ err (invalid_order_item 1)
unfolding program
debt_refused = refl

new_order-Snapshot_example : (new_order dinner ≡ ok made) ↔ Snapshot dinner made
new_order-Snapshot_example = new_order-Snapshot dinner made

new_order_total_example :
    (made.total_cents ≡ exact_total dinner.items) × (is_positive64 made.total_cents ≡ true)
new_order_total_example = new_order_total dinner made dinner_test (omega arith)

new_order_first_bad_example :
    new_order (record dinner { items = pizza ∷ debt ∷ [] }) ≡ err (invalid_order_item 1)
unfolding is_bad_item
new_order_first_bad_example =
    new_order_first_bad (record dinner { items = pizza ∷ debt ∷ [] }) (pizza ∷ []) [] debt
      (λ e. ground (arith, eq_iff "ord-1" "")) (λ e. ground (arith, eq_iff "usr-1" ""))
      (λ e. ground (arith, eq_iff "rst-1" "")) refl (refl, tt) refl

abbrev whole_life : List Status
whole_life = accepted ∷ preparing ∷ ready ∷ completed ∷ cancelled ∷ []

life_run : (run made whole_life).version ≡ 5
unfolding program
life_run = refl

version-run_example : (1 ≤ (run made whole_life).version) × ((run made whole_life).version ≤ 5)
version-run_example = version-run dinner made whole_life dinner_test

run_terminal_example :
    run (record made { status = completed }) whole_life ≡ record made { status = completed }
run_terminal_example = run_terminal (record made { status = completed }) whole_life (inr (inl refl))

new_order_accepted_example :
    (validate_payload (order_created made) "ord-1" ≡ ok tt)
    ↔ (is_positive64 made.total_cents ≡ true)
new_order_accepted_example = new_order_accepted dinner made dinner_test

-- Two pizzas at 2 ^ 62 cents each: a good item, whose order has the total -2 ^ 63.
abbrev feast : NewOrderInput
feast = record dinner { items = record pizza { unit_price_cents = 2 ^ 62 } ∷ [] }

abbrev overflowed : Order
overflowed = record made {
  items =
      record {
        menu_item_id = "pizza";
        name = "Pizza";
        unit_price_cents = 2 ^ 62;
        quantity = 2;
        modifier_item_ids = [];
        line_total_cents = 2 ^ 63;
      }
      ∷ [];
  total_cents = 2 ^ 63;
}

feast_test : new_order feast ≡ ok overflowed
unfolding program
feast_test = refl
