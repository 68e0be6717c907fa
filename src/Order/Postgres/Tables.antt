-- ===== src/Order/Postgres/Tables.antt =====
-- The tables of the orders schema, as internal/order/postgres reads and writes them, with the unique
-- keys and the checks of migrations/order. A table that is read by a unique key is a map.
use test_task_autumn.Prelude.{
  ℕ, ◌^◌, String, Bool, false, not, ◌&&◌, ◌||◌, Option, none, some, List, [], ◌∷◌, ◌++◌, ltb,
  if◌then◌else◌, ◌==◌, nat_eq, string_eq, Map, insert, contains,
}
use test_task_autumn.Prelude.Words.{is_positive64}
use test_task_autumn.Events.Envelope.{Envelope}
use test_task_autumn.Order.Status.{
  Status, pending, accepted, rejected, preparing, ready, completed, cancelled,
}
use test_task_autumn.Order.Memory.{IdempotencyKey, IdempotencyRecord, key_eq}

pub record OrderRow : Type 0 where
  pub user_id : String
  pub restaurant_id : String
  pub status : Status
  pub total_cents : ℕ
  pub version : ℕ

-- `quantity` is the int64 that the statement passes, and `modifier_item_ids` the text of the jsonb.
pub record ItemRow : Type 0 where
  pub order_id : String
  pub menu_item_id : String
  pub name : String
  pub unit_price_cents : ℕ
  pub quantity : ℕ
  pub modifier_item_ids : String
  pub line_total_cents : ℕ

pub record InboxRow : Type 0 where
  pub event_type : String
  pub event_version : ℕ
  pub aggregate_id : String
  pub payload_fingerprint : String

pub record OrderTables : Type 0 where
  pub orders : Map String OrderRow
  -- in the order of id
  pub items : List ItemRow
  pub idempotency : Map IdempotencyKey IdempotencyRecord
  pub inbox : Map String InboxRow
  pub outbox : List Envelope

-- `CHECK (status IN …)`
abbrev pub is_known : Status → Bool
is_known s =
    contains (pending ∷ accepted ∷ rejected ∷ preparing ∷ ready ∷ completed ∷ cancelled ∷ []) s

-- the checks of a row of orders: a total is no negative int64, and a version positive
abbrev pub is_order_row : OrderRow → Bool
is_order_row r = is_known r.status && ltb r.total_cents (2 ^ 63) && is_positive64 r.version

-- The checks of a row of order_items, whose quantity is an INTEGER; `is_array` is the test
-- `jsonb_typeof(…) = 'array'`.
abbrev pub is_item_row : (String → Bool) → ItemRow → Bool
is_item_row is_array r =
    is_positive64 r.unit_price_cents
    && (ltb 0 r.quantity && ltb r.quantity (2 ^ 31))
    && is_array r.modifier_item_ids
    && is_positive64 r.line_total_cents

abbrev pub insert_order_row : String → OrderRow → OrderTables → Option OrderTables
insert_order_row id row t = elim (t.orders id) [
  | some _ ↦ none
  | none ↦ if is_order_row row then some (record t { orders = insert t.orders id row }) else none
]

-- `none` also where the row names an order that is not there
abbrev pub insert_item_row : (String → Bool) → ItemRow → OrderTables → Option OrderTables
insert_item_row is_array row t = elim (t.orders row.order_id) [
  | none ↦ none
  | some _ ↦
      if is_item_row is_array row then some (record t { items = t.items ++ row ∷ [] }) else none
]

-- The order that a row names is inserted before it, so that its foreign key holds.
abbrev pub insert_idempotency :
    IdempotencyKey → IdempotencyRecord → OrderTables → Option OrderTables
insert_idempotency key row t = elim (t.idempotency key) [
  | some _ ↦ none
  | none ↦ some (record t { idempotency = insert t.idempotency key row })
]

abbrev pub insert_inbox : String → InboxRow → OrderTables → Option OrderTables
insert_inbox event_id row t = elim (t.inbox event_id) [
  | some _ ↦ none
  | none ↦ some (record t { inbox = insert t.inbox event_id row })
]

unfoldable pub has_event : String → List Envelope → Bool
has_event id [] = false
has_event id (e ∷ es) = e.event_id == id || has_event id es

-- the checks of a row of outbox_messages, whose payload is what `json.Marshal` made
abbrev pub insert_outbox : Envelope → OrderTables → Option OrderTables
insert_outbox event t =
    if has_event event.event_id t.outbox
      || not (ltb 0 event.event_version && ltb event.event_version (2 ^ 31))
    then none
    else some (record t { outbox = t.outbox ++ event ∷ [] })

-- `UPDATE … WHERE id = $1` of a status and a version; a missing row is no error
abbrev pub update_order : String → Status → ℕ → OrderTables → Option OrderTables
update_order id status version t = elim (t.orders id) [
  | none ↦ some t
  | some row ↦
      if is_order_row (record row { status = status; version = version })
      then some (record t {
        orders = insert t.orders id (record row { status = status; version = version });
      })
      else none
]
