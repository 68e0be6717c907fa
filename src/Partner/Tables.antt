-- ===== src/Partner/Tables.antt =====
-- The tables of the partner schema, as the statements of internal/partner/postgres read and write
-- them. A table that is only read by a unique key is a map, a table that is scanned a list of rows.
use test_task_autumn.Prelude.{
  ℕ, String, Bool, false, ◌||◌, Option, none, some, List, [], ◌∷◌, ◌++◌, if◌then◌else◌, ◌==◌,
  nat_eq, string_eq, Map, insert,
}
use test_task_autumn.Events.Envelope.{Time, Envelope}

pub record Integration : Type 0 where
  pub external_store_id : String
  pub callback_url : String
  pub shared_secret_hash : String
  pub status : String

pub record SubmissionRow : Type 0 where
  pub id : String
  pub order_id : String
  pub restaurant_id : String
  pub external_store_id : String
  pub destination_url : String
  pub status : String
  pub payload : String
  pub correlation_id : String
  pub source_event_id : String
  pub attempts : ℕ
  pub locked_by : Option String
  pub locked_until : Option ℕ
  pub next_attempt_at : Option ℕ
  pub last_error : Option String
  pub submitted_at : Option ℕ

pub record InboxRow : Type 0 where
  pub event_type : String
  pub event_version : ℕ
  pub aggregate_id : String
  pub payload_fingerprint : String

pub record CallbackRow : Type 0 where
  pub order_id : String
  pub external_store_id : String
  pub callback_type : String
  pub payload : String
  pub payload_fingerprint : String
  pub received_at : Time

pub record Tables : Type 0 where
  -- by restaurant_id, which is unique
  pub integrations : Map String Integration
  -- in the order of created_at
  pub submissions : List SubmissionRow
  pub inbox : Map String InboxRow
  pub callbacks : Map String CallbackRow
  pub outbox : List Envelope

-- the unique keys of partner_order_submissions
abbrev pub clashes : SubmissionRow → SubmissionRow → Bool
clashes a b = a.id == b.id || a.order_id == b.order_id || a.source_event_id == b.source_event_id

unfoldable pub any_clash : SubmissionRow → List SubmissionRow → Bool
any_clash row [] = false
any_clash row (x ∷ xs) = clashes row x || any_clash row xs

abbrev pub insert_submission : SubmissionRow → Tables → Option Tables
insert_submission row t =
    if any_clash row t.submissions
    then none
    else some (record t { submissions = t.submissions ++ row ∷ [] })

abbrev pub insert_inbox : String → InboxRow → Tables → Option Tables
insert_inbox event_id row t = elim (t.inbox event_id) [
  | some _ ↦ none
  | none ↦ some (record t { inbox = insert t.inbox event_id row })
]

abbrev pub insert_callback : String → CallbackRow → Tables → Option Tables
insert_callback id row t = elim (t.callbacks id) [
  | some _ ↦ none
  | none ↦ some (record t { callbacks = insert t.callbacks id row })
]

unfoldable pub has_event : String → List Envelope → Bool
has_event id [] = false
has_event id (e ∷ es) = e.event_id == id || has_event id es

-- the primary key of outbox_messages
abbrev pub insert_outbox : Envelope → Tables → Option Tables
insert_outbox event t =
    if has_event event.event_id t.outbox
    then none
    else some (record t { outbox = t.outbox ++ event ∷ [] })
