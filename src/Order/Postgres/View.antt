-- ===== src/Order/Postgres/View.antt =====
-- The tables as a memory store: which store they show, and what a statement reads from them.
use test_task_autumn.Prelude.{
  ℕ, ◌^◌, String, ◌≡◌, refl, ◌∙◌, inl, inr, true, false, ◌&&◌, Option, none, some, List, [], ◌∷◌,
  ◌++◌, arith, eq_refl, ltb, ◌==◌, nat_eq, string_eq, Bool-cases, All, Result, ok, err,
}
use mathlib.Core.List.{append-nil, append_assoc}
use test_task_autumn.Prelude.Words.{int64}
use test_task_autumn.Database.{pure, statement, ◌>>=◌}
use test_task_autumn.Order.Errors.{Error, order_not_found}
use test_task_autumn.Order.Domain.{Order, OrderItem}
use test_task_autumn.Order.Memory.{Store, IdempotencyKey, InboxRecord}
use test_task_autumn.Order.Postgres.Tables.{OrderRow, ItemRow, InboxRow, OrderTables, is_item_row}
use test_task_autumn.Order.Postgres.Rows.{
  Json, slice, int32, order_row, item_row, rows_of, read_item, read_items,
}
use test_task_autumn.Order.Postgres.{load_items, load_row, load_order, insert_items}

-- The rows of an id show the order that is filed under it, or that there is none.
abbrev pub ShowsOrder : Json → String → Option OrderRow → List ItemRow → Option Order → Type 0
ShowsOrder json id none rows none = rows ≡ []
ShowsOrder json id (some row) rows (some o) =
    (read_items json rows ≡ ok o.items) × (row ≡ order_row o) × (o.id ≡ id)
ShowsOrder json id none rows (some o) = ⊥
ShowsOrder json id (some row) rows none = ⊥

abbrev pub inbox_record : Option InboxRow → Option InboxRecord
inbox_record none = none
inbox_record (some r) =
    some (record { fingerprint = r.payload_fingerprint; order_id = r.aggregate_id })

pub record Shows (json : Json) (t : OrderTables) (s : Store) : Type 0 where
  pub orders : (id : String) → ShowsOrder json id (t.orders id) (rows_of id t.items) (s.orders id)
  pub idempotency : (k : IdempotencyKey) → t.idempotency k ≡ s.idempotency k
  pub inbox : (e : String) → inbox_record (t.inbox e) ≡ s.inbox e
  pub outbox : t.outbox ≡ s.outbox

-- what a read of an order finds
abbrev pub order_or_missing : Option Order → Result Error Order
order_or_missing none = err order_not_found
order_or_missing (some o) = ok o

module _ (json : Json) where
  load_shown :
      (id : String) (row : Option OrderRow) (o : Option Order) (t : OrderTables)
      → ShowsOrder json id row (rows_of id t.items) o
      → load_row json id row [] t ≡ (order_or_missing o, [], t)
  unfolding load_items ◌>>=◌
  load_shown id none none t shown = refl
  load_shown id (some row) (some o) t (items, same, own) = rw (items, load_items, same, ← own) refl
  load_shown id none (some o) t shown = absurd shown
  load_shown id (some row) none t shown = absurd shown

  pub load_order_shown :
      (id : String) (t : OrderTables) (s : Store)
      → Shows json t s
      → load_order json id [] t ≡ (order_or_missing (s.orders id), [], t)
  unfolding load_order ◌>>=◌
  load_order_shown id t s shows = load_shown id (t.orders id) (s.orders id) t (shows.orders id)

-- What was written is read back: an INTEGER that is positive keeps its value, and the column its ids.
pub int32-int64 : (q : ℕ) → (ltb 0 (int64 q) && ltb (int64 q) (2 ^ 31)) ≡ true → int32 (int64 q) ≡ q
unfolding int64
int32-int64 q h = ground arith

pub rows_of-append :
    (id : String) (xs ys : List ItemRow) → rows_of id (xs ++ ys) ≡ rows_of id xs ++ rows_of id ys
unfolding rows_of
rows_of-append id [] ys = refl
rows_of-append id (x ∷ xs) ys = elim (Bool-cases (x.order_id == id)) [
  | inl e ↦ rw (e, rows_of-append id xs ys)
  | inr e ↦ rw (e, rows_of-append id xs ys)
]

-- What the columns can hold of an item, and that they give its modifiers back.
abbrev pub ItemFits : Json → String → OrderItem → Type 0
ItemFits json id i =
    (text : String) × (json.marshal (slice i.modifier_item_ids) ≡ some text)
    × (is_item_row json.is_array (item_row id i text) ≡ true)
    × (json.unmarshal text ≡ some i.modifier_item_ids)

read_item_lem :
    (json : Json) (id : String) (i : OrderItem) (text : String)
    → json.unmarshal text ≡ some i.modifier_item_ids
    → int32 (int64 i.quantity) ≡ i.quantity
    → read_item json (item_row id i text) ≡ ok i
read_item_lem json id i text back kept = rw (back, read_item, kept) refl

read_items-cons :
    (json : Json) (r : ItemRow) (rs : List ItemRow) (i : OrderItem) (is : List OrderItem)
    → read_item json r ≡ ok i
    → read_items json rs ≡ ok is
    → read_items json (r ∷ rs) ≡ ok (i ∷ is)
unfolding read_items
read_items-cons json r rs i is first rest = rw (rest) (ground arith)

-- What the loop of insertOrderItems adds.
abbrev pub Inserted : Json → String → List OrderItem → OrderTables → Type 0
Inserted json id items t =
    (rows : List ItemRow) × (insert_items json id items [] t
      ≡ (ok tt, [], record t { items = t.items ++ rows }))
    × (read_items json rows ≡ ok items)
    × (rows_of id rows ≡ rows)
    × ((other : String) → (id == other) ≡ false → rows_of other rows ≡ [])

pub insert_items_lem :
    (json : Json) (id : String) (items : List OrderItem) (t : OrderTables) (row : OrderRow)
    → t.orders id ≡ some row
    → All (ItemFits json id) items
    → Inserted json id items t
unfolding insert_items ◌>>=◌ rows_of read_items pure statement
insert_items_lem json id [] t row found fits = ([], rw append-nil refl, refl, refl, λ other h. refl)
insert_items_lem json id (i ∷ is) t row found ((text, made, checked, back), rest) =
    let new = item_row id i text in
    let (rows, run, read, own, others) =
      insert_items_lem json id is (record t { items = t.items ++ new ∷ [] }) row found rest in
    let step : insert_items json id (i ∷ is) [] t
        ≡ insert_items json id is [] (record t { items = t.items ++ new ∷ [] }) =
      rw (made, found, checked) refl in
    let kept : int32 (int64 i.quantity) ≡ i.quantity = int32-int64 i.quantity (ground arith) in
    (
      new ∷ rows,
      step ∙ run ∙ rw (append_assoc t.items (new ∷ []) rows) refl,
      read_items-cons json new rows i is (read_item_lem json id i text back kept) read,
      rw (eq_refl id, own) refl,
      λ other h. rw h (others other h),
    )
