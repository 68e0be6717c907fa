-- ===== src/Order/KafkaHandler/Arrivals.antt =====
-- From the callback of a restaurant to the order service: partner-service's event as the order
-- service's handler reads it.
use test_task_autumn.Prelude.{
  ℕ, String, ◌≡◌, refl, ◌∙◌, inl, inr, false, none, some, arith, eq_iff, eq_refl, if◌then◌else◌,
  ◌==◌, nat_eq, string_eq, Option-cases, ok,
}
use mathlib.Core.Path.{subst}
use test_task_autumn.Prelude.Texts.{decimal64}
use test_task_autumn.Prelude.Numbers.{atoi}
use test_task_autumn.Events.Envelope.{Time, Envelope, utc, new_envelope}
use test_task_autumn.Events.Contracts.{
  OrderStatusChanged, order_accepted_type, order_rejected_type, accepted_status, rejected_status,
}
use test_task_autumn.Order.Status.{Status, accepted, rejected}
use test_task_autumn.Order.KafkaHandler.{
  World, header, validate_partner_status_payload, partner_event_input,
}
use test_task_autumn.Partner.CallbackService as Callback
use test_task_autumn.Partner.CallbackService.{
  ReceiveStatusCallbackInput, ReceiveRecord, validate_and_event_type, callback_payload,
  callback_record,
}
use test_task_autumn.Platform.Outbox.{Row, OutboxConfig}
use test_task_autumn.Platform.Consumer.{Message}
use test_task_autumn.Platform.Publisher.Rows.{decoded_given, arrived, Carries, arrived-Carries}

-- The two services encode and digest alike; the decoder gives back a payload from its encoding as the
-- database returns that, and nothing from no text.
pub record IsDecodedBy (jsonb : String → String) (w : Callback.World) (h : World)
    (p : OrderStatusChanged) : Type 0 where
  pub back : (text : String) → w.marshal p ≡ some text → h.unmarshal (jsonb text) ≡ some p
  pub no_text : h.unmarshal "" ≡ none
  pub same_marshal : h.marshal p ≡ w.marshal p
  pub same_digest : (text : String) → h.sha256_hex text ≡ w.sha256_hex text

abbrev pub decided_status : ReceiveStatusCallbackInput → Status
decided_status input = if input.status == accepted_status then accepted else rejected

-- What partner-service hands to its store of an accepted callback.
record Made (w : Callback.World) (input : ReceiveStatusCallbackInput) (event_type : String)
    (r : ReceiveRecord) : Type 0 where
  text : String
  encoded : w.marshal (callback_payload input) ≡ some text
  print : r.payload_fingerprint ≡ w.sha256_hex text
  payload : r.outbox_event.payload ≡ text
  payload_given : (text == "") ≡ false
  event_id_given : (r.outbox_event.event_id == "") ≡ false
  event_type_kept : r.outbox_event.event_type ≡ event_type
  event_version : r.outbox_event.event_version ≡ 1
  producer : r.outbox_event.producer ≡ "partner-service"
  aggregate_type : r.outbox_event.aggregate_type ≡ "order"
  aggregate_id : r.outbox_event.aggregate_id ≡ input.order_id
  partition_key : r.outbox_event.partition_key ≡ input.order_id

callback_record-Made :
    (w : Callback.World) (input : ReceiveStatusCallbackInput) (event_type : String)
    (r : ReceiveRecord)
    → callback_record w input event_type ≡ ok r
    → Made w input event_type r
unfolding callback_record new_envelope
callback_record-Made w input event_type r h =
    elim (Option-cases (w.marshal (callback_payload input))) [
      | inl failed ↦ absurd (ground arith)
      | inr (text, encoded) ↦
          let facts : (r.payload_fingerprint ≡ w.sha256_hex text)
              × (r.outbox_event.payload ≡ text)
              × ((text == "") ≡ false)
              × ((r.outbox_event.event_id == "") ≡ false)
              × (r.outbox_event.event_type ≡ event_type)
              × (r.outbox_event.event_version ≡ 1)
              × (r.outbox_event.producer ≡ "partner-service")
              × (r.outbox_event.aggregate_type ≡ "order")
              × (r.outbox_event.aggregate_id ≡ input.order_id)
              × (r.outbox_event.partition_key ≡ input.order_id) =
            ground arith in
          record {
            text = text;
            encoded = encoded;
            print = facts.0;
            payload = facts.1;
            payload_given = facts.2;
            event_id_given = facts.3;
            event_type_kept = facts.4;
            event_version = facts.5;
            producer = facts.6;
            aggregate_type = facts.7;
            aggregate_id = facts.8;
            partition_key = facts.9;
          }
    ]

-- An accepted callback has every field, a time, and one of the two statuses.
validated_status :
    (input : ReceiveStatusCallbackInput) (event_type : String)
    → validate_and_event_type input ≡ ok event_type
    → validate_partner_status_payload event_type input.order_id input.order_id
        (callback_payload input)
      ≡ ok (decided_status input)
unfolding validate_and_event_type validate_partner_status_payload
validated_status input event_type h = ground (
  arith,
  eq_refl input.order_id,
  eq_iff event_type order_accepted_type,
  eq_iff event_type order_rejected_type,
  eq_iff input.status accepted_status,
  eq_iff input.status rejected_status,
)

order_given :
    (input : ReceiveStatusCallbackInput) (event_type : String)
    → validate_and_event_type input ≡ ok event_type
    → (input.order_id == "") ≡ false
unfolding validate_and_event_type
order_given input event_type h = ground arith

-- A message that carries a well-formed event of partner-service passes the guards of the handler.
carried_input :
    (jsonb : String → String) (h : World) (m : Message) (e : Envelope) (p : OrderStatusChanged)
    (status : Status) (text : String)
    → Carries jsonb m e
    → e.event_version ≡ 1
    → e.producer ≡ "partner-service"
    → e.aggregate_type ≡ "order"
    → (e.event_id == "") ≡ false
    → (e.partition_key == "") ≡ false
    → (jsonb e.payload == "") ≡ false
    → h.unmarshal (jsonb e.payload) ≡ some p
    → validate_partner_status_payload e.event_type e.partition_key e.aggregate_id p ≡ ok status
    → h.marshal (record p { partner_occurred_at = utc p.partner_occurred_at }) ≡ some text
    → partner_event_input h m
      ≡ ok (record {
        event_id = e.event_id;
        event_type = e.event_type;
        order_id = p.order_id;
        new_status = status;
        payload_fingerprint = h.sha256_hex text;
      })
unfolding partner_event_input atoi decimal64
carried_input jsonb h m e p status text c version producer aggregate id key payload decoded valid
      encoded =
    rw
      (
        header, c.event_version, version, c.event_id, id, c.producer, producer, c.aggregate_type,
        aggregate, c.event_type, c.aggregate_id, c.key, key, c.value, payload, decoded, valid,
        encoded,
      )
      refl

module _ (jsonb : String → String) (format : Time → String) (config : OutboxConfig)
    (partition offset : ℕ) where
  -- Where the order service decodes the callback's payload from the JSONB text of what partner-service
  -- encodes, and nothing from no text: from each callback that
  -- partner-service validates and makes an event of, through its outbox, the relay and Kafka, the order
  -- service's handler gets a partner event of the callback's order, under the id and the type of that
  -- event, with the status that the callback decides and the fingerprint of the callback.
  pub partner_event_input-arrived :
      (w : Callback.World) (h : World) (input : ReceiveStatusCallbackInput) (event_type : String)
      (r : ReceiveRecord) (row : Row)
      → IsDecodedBy jsonb w h (callback_payload input)
      → validate_and_event_type input ≡ ok event_type
      → callback_record w input event_type ≡ ok r
      → row.event ≡ r.outbox_event
      → partner_event_input h (arrived jsonb format config partition offset row)
        ≡ ok (record {
          event_id = r.outbox_event.event_id;
          event_type = event_type;
          order_id = input.order_id;
          new_status = decided_status input;
          payload_fingerprint = r.payload_fingerprint;
        })
  partner_event_input-arrived w h input event_type r row codec valid made_ filed =
      let e = r.outbox_event in
      let p = callback_payload input in
      let m = arrived jsonb format config partition offset row in
      let made = callback_record-Made w input event_type r made_ in
      let back = codec.back made.text made.encoded in
      let c : Carries jsonb m e =
        subst (Carries jsonb m) filed (arrived-Carries jsonb format config partition offset row) in
      carried_input jsonb h m e p (decided_status input) made.text c made.event_version
        made.producer made.aggregate_type made.event_id_given
        (rw made.partition_key (order_given input event_type valid))
        (rw made.payload (decoded_given h.unmarshal (jsonb made.text) p codec.no_text back))
        (rw made.payload back)
        (rw (made.event_type_kept, made.partition_key, made.aggregate_id)
          (validated_status input event_type valid))
        (codec.same_marshal ∙ made.encoded)
      ∙ rw (made.event_type_kept, codec.same_digest made.text, made.print) refl
