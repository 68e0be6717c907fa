-- ===== src/Partner/Errors.antt =====
-- The errors of the packages under internal/partner.
pub data Error : Type 0 where
  invalid_order_created inbox_conflict integration_not_found : Error
  invalid_status_callback unauthorized_callback callback_conflict : Error
  invalid_submission_config submission_not_owned : Error
  -- an error of `json.Marshal`, `NewEnvelope` or the database, passed on
  encoding invalid_envelope database : Error
