-- ===== src/Order/Service/Fingerprint.antt =====
-- internal/order/application/idempotency.go. `sort.Strings` and `strings.Join` are those of the
-- prelude; `sha256_hex` is the digest and its hexadecimal text.
use test_task_autumn.Prelude.{String, ◌<>◌, [], ◌∷◌, map, nat_eq, string_eq}
use test_task_autumn.Prelude.Texts.{sort_strings, join, decimal32}
use test_task_autumn.Order.Service.Ports.{RequestedItem, CreateOrderInput}

unfoldable pub request_line : RequestedItem → String
request_line item =
    item.menu_item_id
    <> ":"
    <> decimal32 item.quantity
    <> ":"
    <> join (sort_strings item.modifier_item_ids) ","

-- the text that is hashed
unfoldable pub canonical_request : CreateOrderInput → String
unfolding request_line
canonical_request input =
    join
      (input.user_id
        ∷ input.restaurant_id
        ∷ join (sort_strings (map request_line input.items)) "|"
        ∷ [])
      "\0"

unfoldable pub fingerprint_create_order_request : (String → String) → CreateOrderInput → String
unfolding canonical_request
fingerprint_create_order_request sha256_hex input = sha256_hex (canonical_request input)
