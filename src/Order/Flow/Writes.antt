-- ===== src/Order/Flow/Writes.antt =====
-- What `CreateOrder` leaves in each map of the store.
use test_task_autumn.Prelude.{
  String, ◌≡◌, refl, sym, ap, ◌∙◌, inl, inr, true, false, Option, none, some, List, [], ◌∷◌, ◌++◌,
  arith, eq_refl, if◌then◌else◌, ◌==◌, nat_eq, string_eq, Option-cases, Result, ok, err, >>=-eq-ok,
}
use mathlib.Core.Path.{subst}
use test_task_autumn.Events.Envelope.{Envelope, is_zero, utc, new_envelope}
use test_task_autumn.Events.Contracts.{order_created_type}
use test_task_autumn.Order.Errors.{Error}
use test_task_autumn.Order.Domain.{Order, NewOrderItemInput, NewOrderInput, new_order}
use test_task_autumn.Order.Domain.Totals.{Snapshot, new_order-Snapshot}
use test_task_autumn.Order.Service.Ports.{
  CreateOrderInput, CreateOrderRecord, CreateOrderResult, Catalog,
}
use test_task_autumn.Order.Service.{World, make_record, order_created, create_order}
use test_task_autumn.Order.Memory.{
  key_eq, key_beq, Store, IdempotencyKey, IdempotencyRecord, with_order, order_at,
}
use test_task_autumn.Order.Memory.Laws.{IsValid}
use test_task_autumn.Order.Flow.{
  key_of, print_of, over_memory, make_record_fields, Reason, Created, failed, reused, created,
  create_order-Created, order_at_owned,
}

-- The order.created event of a new order, around the encoded order.
abbrev pub event_of : World → CreateOrderInput → Order → String → Envelope
event_of w input o payload = record {
  event_id = w.event_id;
  event_type = order_created_type;
  event_version = 1;
  occurred_at = if is_zero w.now then utc w.clock else w.now;
  producer = "order-service";
  aggregate_type = "order";
  aggregate_id = o.id;
  partition_key = o.id;
  correlation_id = input.request_id;
  causation_id = input.idempotency_key;
  payload = payload;
}

abbrev pub new_input : World → CreateOrderInput → List NewOrderItemInput → NewOrderInput
new_input w input items = record {
  order_id = w.order_id;
  user_id = input.user_id;
  restaurant_id = input.restaurant_id;
  items = items;
}

make_record_event :
    (w : World) (input : CreateOrderInput) (print : String) (items : List NewOrderItemInput)
    (r : CreateOrderRecord)
    → make_record w input print items ≡ ok r
    → (text : String) × (w.marshal (order_created r.order) ≡ some text)
      × (r.outbox_event ≡ event_of w input r.order text)
      × Snapshot (new_input w input items) r.order
unfolding make_record new_envelope
make_record_event w input print items r h =
    let (o, made, rest) = >>=-eq-ok (new_order (new_input w input items)) _ h in
    elim (Option-cases (w.marshal (order_created o))) [
      | inl none_ ↦ absurd (ground arith)
      | inr (text, encoded) ↦
          let facts : (o ≡ r.order) × (event_of w input o text ≡ r.outbox_event) = ground arith in
          (
            text,
            subst (λ x. w.marshal (order_created x) ≡ some text) facts.0 encoded,
            sym facts.1 ∙ ap (λ x. event_of w input x text) facts.0,
            (new_order-Snapshot (new_input w input items) r.order).0 (made ∙ ap ok facts.0),
          )
    ]

module _ (w : World) (c : Option Catalog) (input : CreateOrderInput) (s : Store) where
  -- The store after a new order: the order is the priced snapshot of the items that the catalog gave for
  -- the request, it is filed under its id and named by the key, its event ends the outbox, and nothing
  -- else has changed.
  pub record Written (t : Store) (o : Order) : Type 0 where
    pub catalog : Catalog
    pub is_there : c ≡ some catalog
    pub items : List NewOrderItemInput
    pub offered : catalog.validate_order_items input.restaurant_id input.items ≡ ok items
    pub snapshot : Snapshot (new_input w input items) o
    pub is_new : s.idempotency (key_of input) ≡ none
    pub order : t.orders w.order_id ≡ some o
    pub key :
        t.idempotency (key_of input)
        ≡ some (record { fingerprint = print_of w input; order_id = w.order_id })
    pub text : String
    pub encoded : w.marshal (order_created o) ≡ some text
    pub outbox : t.outbox ≡ s.outbox ++ event_of w input o text ∷ []
    pub other_orders : (id : String) → (w.order_id == id) ≡ false → t.orders id ≡ s.orders id
    pub other_keys :
        (k : IdempotencyKey) → key_beq (key_of input) k ≡ false → t.idempotency k ≡ s.idempotency k
    pub inbox : t.inbox ≡ s.inbox

  -- The result and the store after a call.
  pub data Writes (out : Result Error CreateOrderResult × Store) : Type 0 where
    fails_ : (e : Error) → Reason w c input s e → out ≡ (err e, s) → Writes out
    finds :
        (x : IdempotencyRecord) (o : Order)
        → s.idempotency (key_of input) ≡ some x
        → x.fingerprint ≡ print_of w input
        → s.orders x.order_id ≡ some o
        → out ≡ (ok (record { order = o; reused_idempotency_key = true }), s)
        → Writes out
    writes :
        (o : Order)
        → out.0 ≡ ok (record { order = o; reused_idempotency_key = false })
        → Written out.1 o
        → Writes out

  written :
      (catalog : Catalog) (items : List NewOrderItemInput) (r : CreateOrderRecord)
      → s.idempotency (key_of input) ≡ none
      → c ≡ some catalog
      → catalog.validate_order_items input.restaurant_id input.items ≡ ok items
      → make_record w input (print_of w input) items ≡ ok r
      → Written (with_order s r) r.order
  written catalog items r new there offered made =
      let (user, key, print, id) = make_record_fields w input (print_of w input) items r made in
      let (text, encoded, event, snapshot) =
        make_record_event w input (print_of w input) items r made in
      record {
        catalog = catalog;
        is_there = there;
        items = items;
        offered = offered;
        snapshot = snapshot;
        is_new = new;
        order = rw id (ground (arith, eq_refl w.order_id));
        key =
            rw (user, key, print, id)
              (ground (arith, eq_refl input.user_id, eq_refl input.idempotency_key));
        text = text;
        encoded = encoded;
        outbox = ap (λ e. s.outbox ++ e ∷ []) event;
        other_orders = λ x h. rw (id, h) refl;
        other_keys = λ k h. rw (user, key, h) refl;
        inbox = refl;
      }

  stored :
      (out : Result Error CreateOrderResult × Store)
      → IsValid s
      → Created w c input s out
      → Writes out
  stored out v (failed e why q) = fails_ e why q
  stored out v (reused x e same q) =
      finds x (order_at s x.order_id) e same
        (order_at_owned s x.order_id input.user_id (v.keyed (key_of input) x e)) q
  stored out v (created catalog items r new there offered made q) =
      rw q (writes r.order refl (written catalog items r new there offered made))

  -- On a store with the invariant, `CreateOrder` fails, leaves the store alone, and does so only for one of
  -- these reasons: the request is not valid, its key is on record with another fingerprint, or the key is
  -- new and there is no catalog, the catalog refuses the items, or `NewOrder`, the encoder or the envelope
  -- does. Or it returns the stored order that the key has on record with the same fingerprint, and leaves
  -- the store alone. Or the key is new, the catalog has given the items, and the order is their pending
  -- snapshot at version 1 with the exact total modulo 2 ^ 64; it is then filed under its id, the key is on
  -- record with the fingerprint and that id, the order.created event around the encoded order ends the
  -- outbox, and the other orders and keys and the inbox stay as they are.
  pub create_order-Writes : IsValid s → Writes (create_order w (over_memory c) input s)
  create_order-Writes v = stored _ v (create_order-Created w c input s)
