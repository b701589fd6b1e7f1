-- ===== src/Store/Rows.antt =====
-- The rows of the billing tables, with the columns that the transactions read or write. A UUID is a
-- number, an instant a number of seconds; a JSON document is a record of its keys.
use payments_portal.Base.{ℕ, Bool, false, ◌==◌, ◌&&◌, List, Option, Text, text_eq}
use payments_portal.Base.Int.{ℤ}
use payments_portal.Commerce.{ProductLinkRequest, CurrentOffer}

-- apps/api/app/models/enums.py
pub data Kind : Type 0 where
  customer agreement subscription : Kind

pub data State : Type 0 where
  pending proven_not_sent possible_send unknown bound manual_review : State

pub data IntentState : Type 0 where
  created preparing awaiting_external_result linked : IntentState
  resolved_no_external_effect failed_before_external_effect manual_review : IntentState

pub data Binding : Type 0 where
  unbound bound identity_conflict : Binding

-- A JSON value that is no list and no object.
pub data Scalar : Type 0 where
  null : Scalar
  text : Text → Scalar
  number : ℤ → Scalar
  other : Scalar

-- `NewAgreement.request_document` and `NewSubscription.request_document`, less the constant entries.
-- `create_date` is a date in ISO form, which is read back: here the ordinal of its day.
pub data RequestDocument : Type 0 where
  agreement_request :
      (user_id organization_id : ℕ) (agreement_number : Text) (create_date : ℕ) → RequestDocument
  subscription_request :
      (agreement_id tariff_id period_id tariff_service_id quantity : ℕ) (outer_id : Text)
      → RequestDocument

-- `left == right` on request documents
unfoldable pub request_eq : RequestDocument → RequestDocument → Bool
request_eq (agreement_request u o n d) (agreement_request u' o' n' d') =
    (u == u') && ((o == o') && (text_eq n n' && (d == d')))
request_eq (subscription_request a t p s q o) (subscription_request a' t' p' s' q' o') =
    (a == a') && ((t == t') && ((p == p') && ((s == s') && ((q == q') && text_eq o o'))))
request_eq _ _ = false

-- The keys of a recovery document: the first three of a financial create, the last of a customer
-- create. `none` and `null` are a key that is not there.
pub record RecoveryHint : Type 0 where
  pub request : Option RequestDocument
  pub purchase_intent_id : Option ℕ
  pub accepted_fingerprint : Option Text
  pub provider_customer_candidate_id : Scalar

pub record Operation : Type 0 where
  pub create_operation_id : ℕ
  pub operation_kind : Kind
  pub customer_id : ℕ
  pub external_billing_account_id : Option Text
  pub purchase_intent_id : Option ℕ
  pub request_correlation_key : Text
  pub operation_state : State
  pub send_fence : Option ℕ
  pub bound_external_object_id : Option Text
  pub unknown_since : Option ℕ
  pub unknown_recovery_deadline_at : Option ℕ
  pub recovery_hint_schema_version : Option Text
  pub recovery_hint_document : Option RecoveryHint
  pub resolved_at : Option ℕ

pub record Failure : Type 0 where
  pub code : Scalar
  pub http_status : Scalar
  pub lbx_code : Scalar
  pub reason : Scalar

pub data WorkState : Type 0 where
  pending leased done : WorkState

-- The entry `last_failed_create` of a customer's recovery item, less its constant version.
pub record CreateFailure : Type 0 where
  pub http_status : ℕ
  pub lbx_code : Option ℤ
  pub reason : Text
  pub recorded_at : ℕ

-- `billing_work_items` of kind `external_create_recovery`; `candidate_id`, `last_failure` and
-- `last_failed_create` are entries of the payload document. A lease is owned by a customer's send,
-- whose text names its fence: here the fence.
pub record Work : Type 0 where
  pub coalescing_key : ℕ
  pub candidate_id : Scalar
  pub last_failure : Option Failure
  pub next_attempt_at : ℕ
  pub active_recovery_deadline_at : Option ℕ
  pub work_state : WorkState
  pub attempt_count : ℕ
  pub lease_owner : Option ℕ
  pub lease_expires_at : Option ℕ
  pub last_error_classification : Option Text
  pub last_failed_create : Option CreateFailure

-- The reason codes that the code writes; `other_reason` is any other text in the column.
pub data ReasonCode : Type 0 where
  financial_binding_conflict accepted_terms_changed_after_preparation : ReasonCode
  external_create_outcome_unknown : Kind → ReasonCode
  customer_original_key_mismatch customer_identity_conflict : ReasonCode
  other_reason : Text → ReasonCode

-- The evidence document of a review: `none` is a key that is not there, or null.
pub record Evidence : Type 0 where
  pub purchase_intent_id : Option ℕ
  pub create_operation_id : ℕ
  pub provider_customer_id : Option Text

-- A manual review whose scope is a create operation.
pub record ReviewCase : Type 0 where
  pub reason_code : ReasonCode
  pub scope_reference : ℕ
  pub evidence_schema_version : Text
  pub evidence_document : Evidence
  pub is_open : Bool
  pub resolved_at : Option ℕ

pub record Customer : Type 0 where
  pub customer_id : ℕ
  pub user_id : ℕ
  pub external_billing_account_id : Text
  pub provider_origin : Option Text
  pub billing_customer_key : Text
  pub provider_customer_id : Option Text
  pub binding_state : Binding

pub record LegalSelection : Type 0 where
  pub document_version_id : ℕ
  pub acceptance_text_hash : Text

pub record PurchaseMeaning : Type 0 where
  pub product_id : Text
  pub revision_id : ℕ
  pub expected_fingerprint : Text
  pub documents : List LegalSelection

pub record AcceptedPurchase : Type 0 where
  pub schema_version : Text
  pub meaning : PurchaseMeaning
  pub selection : ProductLinkRequest
  pub offer : CurrentOffer
  pub provider_origin : Text
  pub seller_id : ℕ

-- `accepted_snapshot` is the stored document, read by pydantic: `none` where it does not validate.
pub record PurchaseIntent : Type 0 where
  pub purchase_intent_id : ℕ
  pub user_id : ℕ
  pub customer_id : ℕ
  pub external_billing_account_id : Text
  pub product_id : Text
  pub billing_offer_id : Text
  pub mapping_revision_id : ℕ
  pub accepted_commercial_fingerprint : Text
  pub accepted_snapshot_schema_version : Text
  pub accepted_snapshot : Option AcceptedPurchase
  pub state : IntentState
  pub created_at : ℕ
  pub state_updated_at : ℕ
  pub resolved_at : Option ℕ

pub record ScopeHold : Type 0 where
  pub user_id : ℕ
  pub product_id : Text
  pub purchase_intent_id : ℕ

pub data Lifecycle : Type 0 where
  active inactive ended : Lifecycle

pub data FinancialAccess : Type 0 where
  unverified allowed blocked : FinancialAccess

pub data CommercialAccess : Type 0 where
  eligible ineligible : CommercialAccess

pub record Subscription : Type 0 where
  pub subscription_id : ℕ
  pub purchase_intent_id : ℕ
  pub external_billing_account_id : Text
  pub external_subscription_id : Text
  pub external_agreement_id : Option Text
  pub lifecycle_status : Lifecycle
  pub financial_access_status : FinancialAccess
  pub commercial_access_status : CommercialAccess
  pub projection_valid_until : ℕ
  pub latest_observation_id : Option ℕ

-- `PreparedSubscriptionObservation`, as far as binding reads it, and the row that keeps it.
pub record PreparedObservation : Type 0 where
  pub state : ℤ
  pub current_blocking : ℤ
  pub accepted_fingerprint : Text

pub record StateObservation : Type 0 where
  pub observation_id : ℕ
  pub subscription_id : ℕ
  pub observed_at : ℕ
  pub evidence_document : PreparedObservation

-- `commercial_product_heads`: the mapping revision that a product is sold under.
pub record ProductHead : Type 0 where
  pub external_billing_account_id : Text
  pub product_id : Text
  pub provider_origin : Option Text
  pub mapping_revision_id : ℕ

pub record Db : Type 0 where
  pub heads : List ProductHead
  pub intents : List PurchaseIntent
  pub holds : List ScopeHold
  pub operations : List Operation
  pub works : List Work
  pub reviews : List ReviewCase
  pub customers : List Customer
  pub subscriptions : List Subscription
  pub observations : List StateObservation
