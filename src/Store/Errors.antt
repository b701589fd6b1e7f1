-- ===== src/Store/Errors.antt =====
-- What a transaction raises: the codes of `BillingRefused` and `PurchaseRefused`, and the Python
-- exceptions that the code lets through.

pub data Error : Type 0 where
  purchase_not_found purchase_history_unproven purchase_pending purchase_review_required : Error
  purchase_scope_released purchase_not_prepared purchase_consent_unproven : Error
  billing_busy billing_identity_unproven billing_identity_conflict billing_customer_review : Error
  billing_customer_pending billing_connection_conflict billing_legacy_identity_unproven : Error
  billing_session_required billing_email_verification_required : Error
  -- `StopIteration` of `next`, `NoResultFound` of `one`, `ValueError`, `AttributeError`, and the database's
  -- `IntegrityError` on a broken uniqueness constraint
  stop_iteration no_result_found value_error attribute_error integrity_error : Error
