-- ===== src/Sample/Decisions.antt =====
-- A decision of the sample restaurant is made once.
use test_task_autumn.Prelude.{
  String, ◌≡◌, refl, ap, ◌∙◌, inl, inr, Bool, Option, none, some, List, [], ◌∷◌, arith, eq_iff,
  if◌then◌else◌, ◌==◌, nat_eq, string_eq, Option-cases,
}
use test_task_autumn.Events.Envelope.{Time}
use test_task_autumn.Events.Contracts.{OrderCreated, pending_status, OrderStatus}
use test_task_autumn.Sample.{
  StoredOrder, Orders, Delivery, store_order, receive_order, callback_of, begin_change,
  finish_change, finish_orders, Flight, Begun, answered, sending, Restaurant, Step, receives,
  changes, returns, take_flight, begun, returned, step, run,
}

abbrev callback_if_decided : StoredOrder → Option OrderStatus
callback_if_decided o = if o.order.status == pending_status then none else some (callback_of o)

-- the callback of the order of this id, once it is decided
unfoldable pub decision_of : Orders → String → Option OrderStatus
decision_of orders id = elim (orders id) [ none ↦ none | some o ↦ callback_if_decided o ]

receive_keeps :
    (fingerprint : OrderCreated → Option String) (d : Delivery) (orders : Orders) (id : String)
    (c : OrderStatus)
    → decision_of orders id ≡ some c
    → decision_of (receive_order fingerprint d orders).1 id ≡ some c
unfolding decision_of receive_order store_order
receive_keeps fingerprint d orders id c h = elim (Option-cases d.body) [
  | inl e ↦ ground arith
  | inr (o, e) ↦ ground (arith, eq_iff o.order_id id)
]

begin_keeps :
    (has_sender : Bool) (order_id : String) (body : Option String) (new_id : String) (now : Time)
    (orders : Orders) (id : String) (c : OrderStatus)
    → decision_of orders id ≡ some c
    → decision_of (begin_change has_sender order_id body new_id now orders).1 id ≡ some c
unfolding decision_of begin_change
begin_keeps has_sender order_id body new_id now orders id c h = ground (arith, eq_iff order_id id)

finish_keeps :
    (order_id : String) (callback : OrderStatus) (sent : Bool) (orders : Orders) (id : String)
    (c : OrderStatus)
    → decision_of orders id ≡ some c
    → decision_of (finish_orders order_id callback sent orders) id ≡ some c
unfolding decision_of
finish_keeps order_id callback sent orders id c h = ground (arith, eq_iff order_id id)

begun_orders :
    (order_id : String) (flights : List Flight) (b : Begun × Orders)
    → (begun order_id flights b).orders ≡ b.1
begun_orders order_id flights (answered _, orders) = refl
begun_orders order_id flights (sending callback existing, orders) = refl

returned_keeps :
    (orders : Orders) (sent : Bool) (taken : Option Flight × List Flight) (id : String)
    (c : OrderStatus)
    → decision_of orders id ≡ some c
    → decision_of (returned orders sent taken).orders id ≡ some c
unfolding finish_change
returned_keeps orders sent (none, flights) id c h = h
returned_keeps orders sent (some f, flights) id c h =
    finish_keeps f.order_id f.callback sent orders id c h

module _ (fingerprint : OrderCreated → Option String) (has_sender : Bool) where
  step_keeps :
      (s : Step) (w : Restaurant) (id : String) (c : OrderStatus)
      → decision_of w.orders id ≡ some c
      → decision_of (step fingerprint has_sender s w).orders id ≡ some c
  unfolding step
  step_keeps (receives d) w id c h = receive_keeps fingerprint d w.orders id c h
  step_keeps (changes order_id body new_id now) w id c h =
      ap (λ orders. decision_of orders id) (begun_orders order_id w.flights _)
      ∙ begin_keeps has_sender order_id body new_id now w.orders id c h
  step_keeps (returns n sent) w id c h =
      returned_keeps w.orders sent (take_flight n w.flights) id c h

  -- Once an order is decided, its status and its callback, with the id and the time, stay the same in
  -- any interleaving of deliveries, further requests and returns of the sender.
  pub decision_once :
      (steps : List Step) (w : Restaurant) (id : String) (c : OrderStatus)
      → decision_of w.orders id ≡ some c
      → decision_of (run fingerprint has_sender steps w).orders id ≡ some c
  unfolding run
  decision_once [] w id c h = h
  decision_once (s ∷ ss) w id c h =
      decision_once ss (step fingerprint has_sender s w) id c (step_keeps s w id c h)
