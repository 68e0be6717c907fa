-- ===== src/Sample.antt =====
-- internal/sample/httpapi/handler.go: the sample restaurant. The mutex makes each stretch between
-- `Lock` and `Unlock` one step: changeOrderStatus is two, with the call to the sender between them.
pub mod Decisions
use test_task_autumn.Prelude.{
  ℕ, zero, suc, ◌+◌, ◌-◌, ◌*◌, ◌/◌, ◌%◌, ◌^◌, ◌≤◌, ◌<◌, String, ◌<>◌, ◌≡◌, refl, sym, ap, ◌∙◌, ◌≢◌,
  ◌↔◌, ◌⊎◌, inl, inr, Bool, true, false, not, ◌&&◌, ◌||◌, Option, none, some, List, [], ◌∷◌, ◌++◌,
  map, arith, eq_iff, eq_refl, ltb, leb, if◌then◌else◌, Eq, ◌==◌, ◌!=◌, nat_eq, string_eq,
  Bool-cases, Option-cases, Map, empty_map, insert, length, is_empty, take, keep_if, All,
  length-append, is_empty-append_cons, length-take-le, contains, Result, ok, err, ◌>>=◌, >>=-eq-ok,
  Result-cases, ◌>>◌, fail_if,
}
use test_task_autumn.Events.Envelope.{Time, utc}
use test_task_autumn.Events.Contracts.{
  OrderCreated, OrderCreatedItem, pending_status, OrderStatus, accepted_status, rejected_status,
}

pub record StoredOrder : Type 0 where
  pub order : OrderCreated
  pub external_store_id : String
  pub submission_id : String
  pub status_callback_id : String
  pub callback_acknowledged : Bool
  pub callback_occurred_at : Time
  pub callback_in_flight : Bool
  pub fingerprint : String

abbrev pub Orders : Type 0
Orders = Map String StoredOrder

-- the answer of the handler: a status code and what stands in the body
pub data Reply : Type 0 where
  failure : ℕ → String → Reply
  received : (code : ℕ) → (order_id : String) → (duplicate : Bool) → Reply
  decided : (code : ℕ) → (callback_id : String) → (duplicate : Bool) → Reply
  shown : StoredOrder → Reply

-- `POST /orders`; the body is what the decoder makes of it.
pub record Delivery : Type 0 where
  pub idempotency_key : String
  pub external_store_id : String
  pub submission_id : String
  pub body : Option OrderCreated

-- nil modifiers become the empty list
abbrev with_modifiers : OrderCreatedItem → OrderCreatedItem
with_modifiers i = record i {
  modifier_item_ids = some (elim i.modifier_item_ids [ none ↦ [] | some ids ↦ ids ]);
}

abbrev normalized : OrderCreated → OrderCreated
normalized o = record o { items = map with_modifiers o.items }

abbrev pub stored_order : Delivery → OrderCreated → String → StoredOrder
stored_order d o fingerprint = record {
  order = o;
  external_store_id = d.external_store_id;
  submission_id = d.submission_id;
  status_callback_id = "";
  callback_acknowledged = false;
  callback_occurred_at = record { instant = 0; location = 0 };
  callback_in_flight = false;
  fingerprint = fingerprint;
}

-- the critical section of `receiveOrder`
unfoldable pub store_order : Delivery → OrderCreated → String → Orders → Reply × Orders
store_order d o fingerprint orders = elim (orders o.order_id) [
  | none ↦ (received 202 o.order_id false, insert orders o.order_id (stored_order d o fingerprint))
  | some existing ↦
      if existing.fingerprint != fingerprint
      then (failure 409 "order id reused with different payload", orders)
      else (received 200 o.order_id true, orders)
]

-- `receiveOrder`; `fingerprint` is the digest of the encoded order, or `none` if that fails.
unfoldable pub receive_order : (OrderCreated → Option String) → Delivery → Orders → Reply × Orders
unfolding store_order
receive_order fingerprint d orders =
    if d.idempotency_key == "" || d.external_store_id == "" || d.submission_id == ""
    then (failure 400 "required delivery headers are missing", orders)
    else elim d.body [
      | none ↦ (failure 400 "invalid order payload", orders)
      | some o ↦
          if o.order_id == ""
            || o.order_id != d.idempotency_key
            || o.restaurant_id == ""
            || is_empty o.items
          then (failure 400 "invalid order identity", orders)
          else elim (fingerprint (normalized o)) [
            | none ↦ (failure 500 "cannot encode order", orders)
            | some f ↦ store_order d (normalized o) f orders
          ]
    ]

-- `getOrder`
unfoldable pub get_order : String → Orders → Reply
get_order order_id orders = elim (orders order_id) [
  | none ↦ failure 404 "order not found"
  | some o ↦ shown o
]

-- the callback of a stored order
abbrev pub callback_of : StoredOrder → OrderStatus
callback_of o = record {
  callback_id = o.status_callback_id;
  order_id = o.order.order_id;
  restaurant_id = o.order.restaurant_id;
  external_store_id = o.external_store_id;
  status = o.order.status;
  occurred_at = o.callback_occurred_at;
}

-- What the first half of `changeOrderStatus` comes to: an answer, or a callback to send.
pub data Begun : Type 0 where
  answered : Reply → Begun
  sending : OrderStatus → (existing_decision : Bool) → Begun

-- the rest of the first half, for the order with its decision
abbrev pub begin_callback : Bool → String → Bool → StoredOrder → Orders → Begun × Orders
begin_callback has_sender order_id existing o orders =
    if o.callback_acknowledged
    then (answered (decided 200 o.status_callback_id true), orders)
    else if o.callback_in_flight
    then (answered (failure 409 "callback already in progress"), orders)
    else if not has_sender
    then (answered (failure 503 "callback sender unavailable"), insert orders order_id o)
    else (
      sending (callback_of o) existing,
      insert orders order_id (record o { callback_in_flight = true }),
    )

-- the decision of an undecided order
abbrev pub decide : StoredOrder → String → String → Time → StoredOrder
decide o status callback_id now = record o {
  order = record o.order { status = status };
  status_callback_id = callback_id;
  callback_occurred_at = utc now;
}

-- `changeOrderStatus` up to the call of the sender. The body is `none` where the decoder fails or finds
-- trailing data; `new_id` and `now` are the results of `h.newID()` and `h.now()`.
unfoldable pub begin_change :
    Bool → String → Option String → String → Time → Orders → Begun × Orders
begin_change has_sender order_id body new_id now orders = elim body [
  | none ↦ (answered (failure 400 "invalid status payload"), orders)
  | some status ↦
      if status != accepted_status && status != rejected_status
      then (answered (failure 400 "unsupported status"), orders)
      else elim (orders order_id) [
        | none ↦ (answered (failure 404 "order not found"), orders)
        | some o ↦
            if o.order.status != pending_status
            then if o.order.status != status
              then (answered (failure 409 "order decision conflict"), orders)
              else begin_callback has_sender order_id true o orders
            else if new_id == ""
            then (answered (failure 500 "cannot create callback identity"), orders)
            else begin_callback has_sender order_id false (decide o status new_id now) orders
      ]
]

-- the second critical section; `orders[orderID]` of a missing order is the zero value
abbrev pub finish_orders : String → OrderStatus → Bool → Orders → Orders
finish_orders order_id callback sent orders = elim (orders order_id) [
  | none ↦ orders
  | some current ↦
      if current.status_callback_id == callback.callback_id
      then insert orders order_id (record current {
        callback_in_flight = false;
        callback_acknowledged = current.callback_acknowledged || sent;
      })
      else orders
]

-- `changeOrderStatus` from the return of the sender, for an order that the first half has found: no
-- order is ever removed.
unfoldable pub finish_change : String → OrderStatus → Bool → Bool → Orders → Reply × Orders
finish_change order_id callback existing sent orders = (
  if not sent
      then failure 502 "partner callback failed"
      else decided (if existing then 200 else 202) callback.callback_id existing,
  finish_orders order_id callback sent orders,
)

-- A callback on its way, and the order it belongs to.
pub record Flight : Type 0 where
  pub order_id : String
  pub callback : OrderStatus
  pub existing_decision : Bool

pub record Restaurant : Type 0 where
  pub orders : Orders
  pub flights : List Flight

-- One critical section; `returns` is the return of the n-th of the calls to the sender.
pub data Step : Type 0 where
  receives : Delivery → Step
  changes : (order_id : String) → (body : Option String) → (new_id : String) → (now : Time) → Step
  returns : (n : ℕ) → (sent : Bool) → Step

abbrev take_flight : ℕ → List Flight → Option Flight × List Flight
take_flight n [] = (none, [])
take_flight zero (f ∷ fs) = (some f, fs)
take_flight (suc n) (f ∷ fs) = let (found, rest) = take_flight n fs in (found, f ∷ rest)

abbrev begun : String → List Flight → Begun × Orders → Restaurant
begun order_id flights (answered _, orders) = record { orders = orders; flights = flights }
begun order_id flights (sending callback existing, orders) = record {
  orders = orders;
  flights =
      record { order_id = order_id; callback = callback; existing_decision = existing } ∷ flights;
}

abbrev returned : Orders → Bool → Option Flight × List Flight → Restaurant
returned orders sent (none, flights) = record { orders = orders; flights = flights }
returned orders sent (some f, flights) = record {
  orders = (finish_change f.order_id f.callback f.existing_decision sent orders).1;
  flights = flights;
}

module _ (fingerprint : OrderCreated → Option String) (has_sender : Bool) where
  unfoldable pub step : Step → Restaurant → Restaurant
  unfolding receive_order begin_change finish_change
  step (receives d) w = record w { orders = (receive_order fingerprint d w.orders).1 }
  step (changes order_id body new_id now) w =
      begun order_id w.flights (begin_change has_sender order_id body new_id now w.orders)
  step (returns n sent) w = returned w.orders sent (take_flight n w.flights)

  -- any interleaving of requests
  unfoldable pub run : List Step → Restaurant → Restaurant
  unfolding step
  run [] w = w
  run (s ∷ ss) w = run ss (step s w)
