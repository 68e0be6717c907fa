-- ===== src/Order/Postgres/NewRows.antt =====
-- The rows that a new order leaves.
use test_task_autumn.Prelude.{
  ◌^◌, String, ◌≡◌, refl, sym, ap, ◌∙◌, inl, inr, true, false, ◌&&◌, Option, none, some, List, [],
  ◌∷◌, ◌++◌, arith, eq_iff, eq_refl, ltb, ◌==◌, nat_eq, string_eq, Bool-cases, Option-cases, insert,
  All, ok,
}
use mathlib.Core.Path.{subst}
use mathlib.Core.List.{append-nil}
use test_task_autumn.Database.{◌>>=◌}
use test_task_autumn.Order.Domain.{Order}
use test_task_autumn.Order.Service.Ports.{CreateOrderRecord}
use test_task_autumn.Order.Memory as Memory
use test_task_autumn.Order.Memory.{
  Store, IdempotencyKey, IdempotencyRecord, InboxRecord, key_beq, key_beq_iff, key_eq, record_key,
  order_at, with_order, with_event,
}
use test_task_autumn.Order.Memory.Laws.{IsValid, IsFresh}
use test_task_autumn.Order.Postgres.Tables.{OrderRow, ItemRow, OrderTables, is_order_row, has_event}
use test_task_autumn.Order.Postgres.Rows.{Json, order_row, rows_of, read_items}
use test_task_autumn.Order.Postgres.View.{
  ShowsOrder, Shows, order_or_missing, load_order_shown, ItemFits, insert_items_lem, rows_of-append,
}
use test_task_autumn.Order.Postgres.{load_order, find_by_key, create_new}

order_at_lem : (s : Store) (id : String) (o : Order) → s.orders id ≡ some o → order_at s id ≡ o
order_at_lem s id o h = rw (h, order_at) refl

-- The order that a key names is there.
keyed_order :
    (s : Store) (k : IdempotencyKey) (x : IdempotencyRecord)
    → IsValid s
    → s.idempotency k ≡ some x
    → s.orders x.order_id ≡ some (order_at s x.order_id)
keyed_order s k x v e = elim (Option-cases (s.orders x.order_id)) [
  | inl gone ↦ absurd (ground (arith, v.keyed k x e))
  | inr (o, there) ↦ there ∙ ap some (sym (order_at_lem s x.order_id o there))
]

module _ (json : Json) where
  pub find_by_key_shown :
      (key : IdempotencyKey) (fingerprint : String) (t : OrderTables) (s : Store)
      → Shows json t s
      → IsValid s
      → find_by_key json key fingerprint [] t ≡ (Memory.find_by_key s key fingerprint, [], t)
  unfolding find_by_key Memory.find_by_key ◌>>=◌
  find_by_key_shown key fingerprint t s shows v = elim (Option-cases (s.idempotency key)) [
    | inl e ↦ let e' = shows.idempotency key ∙ e in rw (e, e', Memory.find_by_key) refl
    | inr (x, e) ↦
        let e' = shows.idempotency key ∙ e in
        let load : load_order json x.order_id [] t ≡ (ok (order_at s x.order_id), [], t) =
          load_order_shown json x.order_id t s shows
          ∙ ap (λ o. (order_or_missing o, [], t)) (keyed_order s key x v e) in
        elim (Bool-cases (x.fingerprint == fingerprint)) [
          | inl same ↦ rw (e', e, Memory.find_by_key, same, load) refl
          | inr differ ↦ rw (e', e, Memory.find_by_key, differ) refl
        ]
  ]

  -- What a new order needs: an id and an event id of its own, and values that the columns hold.
  pub record Fits (r : CreateOrderRecord) (s : Store) : Type 0 where
    pub fresh : IsFresh r s
    pub order : is_order_row (order_row r.order) ≡ true
    pub items : All (ItemFits json r.order.id) r.order.items
    pub new_event : has_event r.outbox_event.event_id s.outbox ≡ false
    pub event :
        (ltb 0 r.outbox_event.event_version && ltb r.outbox_event.event_version (2 ^ 31)) ≡ true

  no_row :
      (id : String) (row : Option OrderRow) (rows : List ItemRow)
      → ShowsOrder json id row rows none
      → (row ≡ none) × (rows ≡ [])
  no_row id none rows h = (refl, h)
  no_row id (some row) rows h = absurd h

  -- The tables after a new order and its items, key and event.
  pub with_rows : CreateOrderRecord → List ItemRow → OrderTables → OrderTables
  with_rows r rows t = record {
    orders = insert t.orders r.order.id (order_row r.order);
    items = t.items ++ rows;
    idempotency =
        insert t.idempotency (record_key r)
          (record { fingerprint = r.request_fingerprint; order_id = r.order.id });
    inbox = t.inbox;
    outbox = t.outbox ++ r.outbox_event ∷ [];
  }

  pub create_new_runs :
      (r : CreateOrderRecord) (t : OrderTables) (s : Store)
      → Shows json t s
      → Fits r s
      → s.idempotency (record_key r) ≡ none
      → (rows : List ItemRow) × (create_new json r [] t ≡ (
        ok (record { order = r.order; reused_idempotency_key = false }),
        [],
        with_rows r rows t,
      ))
        × (read_items json rows ≡ ok r.order.items)
        × (rows_of r.order.id rows ≡ rows)
        × ((other : String) → (r.order.id == other) ≡ false → rows_of other rows ≡ [])
  unfolding create_new with_rows ◌>>=◌
  create_new_runs r t s shows fits new_key =
      let (no_order, no_items) =
        no_row r.order.id (t.orders r.order.id) (rows_of r.order.id t.items) (
          subst (ShowsOrder json r.order.id (t.orders r.order.id) (rows_of r.order.id t.items))
            fits.fresh (shows.orders r.order.id)) in
      let with_order : OrderTables = record t {
        orders = insert t.orders r.order.id (order_row r.order);
      } in
      let (rows, run, read, own, others) =
        insert_items_lem json r.order.id r.order.items with_order (order_row r.order)
          (rw (eq_refl r.order.id) refl) fits.items in
      let no_key : t.idempotency (record_key r) ≡ none =
        shows.idempotency (record_key r) ∙ new_key in
      let no_event : has_event r.outbox_event.event_id t.outbox ≡ false =
        ap (has_event r.outbox_event.event_id) shows.outbox ∙ fits.new_event in
      (rows, rw (no_order, fits.order, run, no_key, no_event, fits.event) refl, read, own, others)

  -- The rows of an id after a new order: those of the order at its id, and the same as before at others.
  with_rows_orders :
      (r : CreateOrderRecord) (rows : List ItemRow) (t : OrderTables) (s : Store) (id : String)
      → Shows json t s
      → IsFresh r s
      → read_items json rows ≡ ok r.order.items
      → rows_of r.order.id rows ≡ rows
      → ((other : String) → (r.order.id == other) ≡ false → rows_of other rows ≡ [])
      → ShowsOrder json id
          ((with_rows r rows t).orders id)
          (rows_of id (with_rows r rows t).items)
          ((with_order s r).orders id)
  unfolding with_rows
  with_rows_orders r rows t s id shows fresh read own others =
      elim (Bool-cases (r.order.id == id)) [
        | inl hit ↦
            let same : r.order.id ≡ id = (eq_iff r.order.id id).0 hit in
            let (_, none_before) =
              no_row r.order.id (t.orders r.order.id) (rows_of r.order.id t.items) (
                subst
                  (ShowsOrder json r.order.id (t.orders r.order.id) (rows_of r.order.id t.items))
                  fresh (shows.orders r.order.id)) in
            let all : rows_of r.order.id (t.items ++ rows) ≡ rows =
              rows_of-append r.order.id t.items rows ∙ rw (none_before, own) refl in
            rw hit (rw (← same, all) (read, refl, refl))
        | inr miss ↦
            rw
              (
                miss,
                rows_of-append id t.items rows,
                others id miss,
                append-nil (rows_of id t.items),
              )
              (shows.orders id)
      ]

  pub with_rows-Shows :
      (r : CreateOrderRecord) (rows : List ItemRow) (t : OrderTables) (s : Store)
      → Shows json t s
      → IsFresh r s
      → read_items json rows ≡ ok r.order.items
      → rows_of r.order.id rows ≡ rows
      → ((other : String) → (r.order.id == other) ≡ false → rows_of other rows ≡ [])
      → Shows json (with_rows r rows t) (with_order s r)
  unfolding with_rows
  with_rows-Shows r rows t s shows fresh read own others = record {
    orders = λ id. with_rows_orders r rows t s id shows fresh read own others;
    idempotency = λ k. elim (Bool-cases (record_key r == k)) [
      | inl e ↦ rw e refl
      | inr e ↦ rw e (shows.idempotency k)
    ];
    inbox = shows.inbox;
    outbox = ap (λ events. events ++ r.outbox_event ∷ []) shows.outbox;
  }
