-- ===== src/Partner/KafkaHandler/Arrivals.antt =====
-- From an order to the partner service: the order service's event as partner-service's handler reads it.
use test_task_autumn.Prelude.{
  ℕ, String, ◌≡◌, refl, ap, ◌∙◌, inl, inr, true, false, none, some, List, arith, ◌==◌, nat_eq,
  string_eq, Option-cases, ok, >>=-eq-ok,
}
use mathlib.Core.Path.{subst}
use test_task_autumn.Prelude.Texts.{decimal64}
use test_task_autumn.Prelude.Words.{is_positive64}
use test_task_autumn.Prelude.Numbers.{atoi}
use test_task_autumn.Events.Envelope.{Time, Envelope, new_envelope}
use test_task_autumn.Events.Contracts.{order_created_type}
use test_task_autumn.Order.Domain.{NewOrderItemInput, NewOrderInput, new_order}
use test_task_autumn.Order.Service as Service
use test_task_autumn.Order.Service.{make_record, order_created}
use test_task_autumn.Order.Service.Ports.{CreateOrderInput, CreateOrderRecord}
use test_task_autumn.Partner.Intake as Intake
use test_task_autumn.Partner.Intake.{HandleOrderCreatedInput, validate_payload, is_bad_input}
use test_task_autumn.Partner.Intake.Contract.{new_order_accepted}
use test_task_autumn.Partner.KafkaHandler.{header, order_created_input}
use test_task_autumn.Platform.Outbox.{Row, OutboxConfig}
use test_task_autumn.Platform.Consumer.{Message}
use test_task_autumn.Platform.Publisher.Rows.{decoded_given, arrived, Carries, arrived-Carries}

-- What order-service hands to its store of a new order.
record Made (w : Service.World) (input : CreateOrderInput) (items : List NewOrderItemInput)
    (r : CreateOrderRecord) : Type 0 where
  from : NewOrderInput
  created : new_order from ≡ ok r.order
  text : String
  encoded : w.marshal (order_created r.order) ≡ some text
  payload : r.outbox_event.payload ≡ text
  payload_given : (text == "") ≡ false
  event_id_given : (r.outbox_event.event_id == "") ≡ false
  partition_key_given : (r.order.id == "") ≡ false
  event_type : r.outbox_event.event_type ≡ order_created_type
  event_version : r.outbox_event.event_version ≡ 1
  partition_key : r.outbox_event.partition_key ≡ r.order.id
  correlation_id : r.outbox_event.correlation_id ≡ input.request_id

make_record-Made :
    (w : Service.World) (input : CreateOrderInput) (print : String) (items : List NewOrderItemInput)
    (r : CreateOrderRecord)
    → make_record w input print items ≡ ok r
    → Made w input items r
unfolding make_record new_envelope
make_record-Made w input print items r h =
    let from : NewOrderInput = record {
      order_id = w.order_id;
      user_id = input.user_id;
      restaurant_id = input.restaurant_id;
      items = items;
    } in
    let (o, created, rest) = >>=-eq-ok (new_order from) _ h in
    elim (Option-cases (w.marshal (order_created o))) [
      | inl failed ↦ absurd (ground arith)
      | inr (text, encoded) ↦
          let facts : (o ≡ r.order)
              × (r.outbox_event.payload ≡ text)
              × ((text == "") ≡ false)
              × ((r.outbox_event.event_id == "") ≡ false)
              × ((r.order.id == "") ≡ false)
              × (r.outbox_event.event_type ≡ order_created_type)
              × (r.outbox_event.event_version ≡ 1)
              × (r.outbox_event.partition_key ≡ r.order.id)
              × (r.outbox_event.correlation_id ≡ input.request_id) =
            ground arith in
          record {
            from = from;
            created = created ∙ ap ok facts.0;
            text = text;
            encoded = subst (λ x. w.marshal (order_created x) ≡ some text) facts.0 encoded;
            payload = facts.1;
            payload_given = facts.2;
            event_id_given = facts.3;
            partition_key_given = facts.4;
            event_type = facts.5;
            event_version = facts.6;
            partition_key = facts.7;
            correlation_id = facts.8;
          }
    ]

-- A message that carries a well-formed order.created event passes the guards of the handler.
carried_input :
    (jsonb : String → String) (m : Message) (e : Envelope)
    → Carries jsonb m e
    → e.event_type ≡ order_created_type
    → e.event_version ≡ 1
    → (e.event_id == "") ≡ false
    → (e.partition_key == "") ≡ false
    → (jsonb e.payload == "") ≡ false
    → order_created_input m
      ≡ ok (record {
        event_id = e.event_id;
        event_type = order_created_type;
        event_version = 1;
        partition_key = e.partition_key;
        correlation_id = e.correlation_id;
        payload = jsonb e.payload;
      })
unfolding order_created_input atoi decimal64
carried_input jsonb m e c event_type version id key payload =
    rw
      (
        header, c.event_id, id, c.event_type, event_type, c.event_version, version,
        c.correlation_id, c.key, key, c.value, payload,
      )
      refl

abbrev pub handed_on : CreateOrderInput → CreateOrderRecord → String → HandleOrderCreatedInput
handed_on input r text = record {
  event_id = r.outbox_event.event_id;
  event_type = order_created_type;
  event_version = 1;
  partition_key = r.order.id;
  correlation_id = input.request_id;
  payload = text;
}

module _ (jsonb : String → String) (format : Time → String) (config : OutboxConfig)
    (partition offset : ℕ) where
  -- Where partner-service decodes the order from the JSONB text of what the order service encodes, and
  -- nothing from no text: from each order that the order service
  -- makes a record of, with a total that is a positive int64, through the outbox, the relay and Kafka,
  -- partner-service's handler gets that order, under the id of its event and the id of the request, and
  -- the checks of the input and of the payload pass.
  pub order_created_input-arrived :
      (w : Service.World) (p : Intake.World) (input : CreateOrderInput) (print : String)
      (items : List NewOrderItemInput) (r : CreateOrderRecord) (row : Row)
      → ((text : String)
          → w.marshal (order_created r.order) ≡ some text
          → p.unmarshal (jsonb text) ≡ some (order_created r.order))
      → p.unmarshal "" ≡ none
      → make_record w input print items ≡ ok r
      → is_positive64 r.order.total_cents ≡ true
      → row.event ≡ r.outbox_event
      → (text : String) × (order_created_input (arrived jsonb format config partition offset row)
          ≡ ok (handed_on input r text))
        × (is_bad_input (handed_on input r text) ≡ false)
        × (p.unmarshal text ≡ some (order_created r.order))
        × (validate_payload (order_created r.order) r.order.id ≡ ok tt)
  order_created_input-arrived w p input print items r row decodes nothing made_ positive filed =
      let e = r.outbox_event in
      let m = arrived jsonb format config partition offset row in
      let made = make_record-Made w input print items r made_ in
      let back = decodes made.text made.encoded in
      let given =
        decoded_given p.unmarshal (jsonb made.text) (order_created r.order) nothing back in
      let c : Carries jsonb m e =
        subst (Carries jsonb m) filed (arrived-Carries jsonb format config partition offset row) in
      (
        jsonb made.text,
        carried_input jsonb m e c made.event_type made.event_version made.event_id_given
              (rw made.partition_key made.partition_key_given) (rw made.payload given)
            ∙ rw (made.partition_key, made.correlation_id, made.payload) refl,
        rw (made.event_id_given, made.partition_key_given, given) refl,
        back,
        (new_order_accepted made.from r.order made.created).1 positive,
      )
