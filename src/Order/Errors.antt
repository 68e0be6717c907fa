-- ===== src/Order/Errors.antt =====
-- The errors of the order service: the sentinels of internal/order/domain/order.go,
-- internal/order/application/service.go and internal/platform/events/envelope.go.
use test_task_autumn.Prelude.{ℕ, String, nat_eq, string_eq}
use test_task_autumn.Catalog.Domain.{CatalogError}

pub data Error : Type 0 where
  empty_order invalid_order : Error
  invalid_order_item : ℕ → Error
  invalid_status_transition : String → String → Error
  invalid_create_order store_required catalog_required : Error
  invalid_create_order_item : ℕ → Error
  idempotency_conflict order_not_found invalid_partner_event inbox_conflict : Error
  invalid_envelope : Error
  -- an error of the catalog port, passed on
  catalog : CatalogError → Error
  -- an error of `json.Marshal` or of the database, passed on
  encoding database : Error
