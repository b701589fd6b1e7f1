-- ===== src/Customers/Open.antt =====
-- `CustomerOpen` of apps/api/app/domains/billing/contracts.py, and `_receipt_id`, `_snapshot` and the
-- reads that the transactions of customers.py share.
use payments_portal.Purchases.Snapshot.{has_schema}
use payments_portal.Store.{
  Scalar, Operation, Customer, Outcome, RecoveryHint, text, billing_identity_unproven,
}
use payments_portal.Base.{
  ℕ, some, Option, Text, Bool, codes, ltb, [], none, length, err, if◌then◌else◌, ◌>>=◌, true, ◌&&◌,
  ok, is_none, text_eq, all, is_digit, leb, int, str,
}

pub record CustomerOpen : Type 0 where
  pub customer_id : ℕ
  pub operation_id : ℕ
  pub fence : Option ℕ
  pub outer_key : Text
  pub provider_id : Option Text
  pub may_create : Bool
  pub email : Text
  pub first_name : Option Text
  pub surname : Option Text
  pub patronymic : Option Text
  pub receipt_id : Option Text

-- The columns of the user that a snapshot shows.
pub record User : Type 0 where
  pub user_id : ℕ
  pub email : Text
  pub first_name : Option Text
  pub surname : Option Text
  pub patronymic : Option Text

-- The settings that these transactions read; the lease is the sum of the two preflight timeouts, in
-- seconds.
pub record Configuration : Type 0 where
  pub lbx_provider_origin : Text
  pub lbx_external_billing_account_id : Text
  pub lbx_legacy_credential_scope : Option Text
  pub send_lease : ℕ

-- `RECOVERY_WINDOW` of customers.py, and of apps/api/app/domains/purchases/financial.py, in seconds
abbrev pub recovery_window : ℕ
recovery_window = 7200

-- `CUSTOMER_RECEIPT_SCHEMA`
unfoldable pub customer_receipt_schema : Text
customer_receipt_schema = codes "customer-create-receipt:v1"

-- The tests on the stored number; `int` and `str` are read only past the first ones.
unfoldable pub is_customer_number : Text → Bool
is_customer_number value =
    (ltb 0 (length value) && all is_digit value)
    && (leb (length value) 20 && (ltb 0 (int value) && text_eq (str (int value)) value))

unfoldable pub receipt_number : Scalar → Outcome (Option Text)
receipt_number (text value) =
    if is_customer_number value then ok (some value) else err billing_identity_unproven
receipt_number _ = err billing_identity_unproven

abbrev hinted_receipt : Bool → Option RecoveryHint → Outcome (Option Text)
hinted_receipt true (some hint) = receipt_number hint.provider_customer_candidate_id
hinted_receipt _ _ = err billing_identity_unproven

-- `_receipt_id`
unfoldable pub receipt_id : Operation → Outcome (Option Text)
receipt_id op =
    if is_none op.recovery_hint_schema_version && is_none op.recovery_hint_document
    then ok none
    else hinted_receipt (has_schema customer_receipt_schema op) op.recovery_hint_document

abbrev email_of : Option User → Text
email_of none = []
email_of (some user) = user.email

abbrev name_of : (User → Option Text) → Option User → Option Text
name_of field none = none
name_of field (some user) = field user

abbrev pub shown : Customer → Operation → Option User → Bool → Option Text → CustomerOpen
shown c op user may_create receipt = record {
  customer_id = c.customer_id;
  operation_id = op.create_operation_id;
  fence = op.send_fence;
  outer_key = c.billing_customer_key;
  provider_id = c.provider_customer_id;
  may_create = may_create;
  email = email_of user;
  first_name = name_of (λ u. u.first_name) user;
  surname = name_of (λ u. u.surname) user;
  patronymic = name_of (λ u. u.patronymic) user;
  receipt_id = receipt;
}

-- `_snapshot`
unfoldable pub customer_snapshot : Customer → Operation → Option User → Bool → Outcome CustomerOpen
customer_snapshot c op user may_create =
    receipt_id op >>= λ receipt. ok (shown c op user may_create receipt)
