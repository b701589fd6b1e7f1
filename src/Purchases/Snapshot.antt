-- ===== src/Purchases/Snapshot.antt =====
-- apps/api/app/domains/purchases/service.py: `accepted`, `_operation` and `_snapshot`, which read
-- stored rows back into purchase evidence and refuse what they cannot prove.
pub mod Shown
pub mod Identity
use payments_portal.Base.{
  ℕ, ◌^◌, ◌++◌, Bool, true, false, not, ◌&&◌, ◌||◌, Option, none, some, List, [], ◌∷◌, ◌==◌, ltb,
  leb, any, all, length, map, Text, codes, text_eq, str, int, is_digit, some_and, is_none,
  if◌then◌else◌, Result, ok, err, ◌>>=◌, ◌>>◌, check, raise_if, or_raise,
}
use payments_portal.Base.Int.{ℤ, pos, negsuc, pos_part, neg_part, leb_ℤ, ltb_ℤ}
use payments_portal.Commerce.{billing_offer_id}
use payments_portal.Store.{
  Outcome, Db, Operation, Work, Failure, Scalar, null, text, number, other, RequestDocument,
  agreement_request, subscription_request, Kind, agreement, ReasonCode, IntentState, PurchaseIntent,
  AcceptedPurchase, purchase_history_unproven, recovery_work, financial_recovery_deadline, hold,
  operations, open_reviews, kind_eq, financial_binding_conflict,
  accepted_terms_changed_after_preparation, external_create_outcome_unknown,
}
use payments_portal.Purchases.Contracts.{
  FinancialOperation, SafeFailure, Purchase, PurchaseReason, terms_changed,
  purchase_binding_conflict, purchase_terms_changed_after_preparation, purchase_outcome_unknown,
  purchase_review_required, purchase_pending,
}

-- `FINANCIAL_HINT_SCHEMA` of apps/api/app/domains/purchases/financial.py
unfoldable pub financial_hint_schema : Text
financial_hint_schema = codes "financial-create:v1"

-- The five tests on a stored provider identity; `int` and `str` are read only past the first ones.
unfoldable pub is_provider_id : Text → Bool
is_provider_id value =
    (ltb 0 (length value) && all is_digit value)
    && (leb (length value) 20
        && (ltb 0 (int value) && (ltb (int value) (10 ^ 20) && text_eq (str (int value)) value)))

-- The loop's test for one value: absent, or a text that passes.
unfoldable pub proven_identity : Scalar → Outcome (Option Text)
proven_identity null = ok none
proven_identity (text value) =
    if is_provider_id value then ok (some value) else err purchase_history_unproven
proven_identity _ = err purchase_history_unproven

abbrev pub stored_identity : Option Text → Scalar
stored_identity none = null
stored_identity (some value) = text value

abbrev pub candidate_of : Option Work → Scalar
candidate_of none = null
candidate_of (some work) = work.candidate_id

abbrev pub failure_of : Option Work → Option Failure
failure_of none = none
failure_of (some work) = work.last_failure

unfoldable pub known_failure_codes : List Text
known_failure_codes = map codes (
    "lbx_create_not_sent" ∷ "lbx_response_invalid" ∷ "lbx_provider_rejected" ∷ "lbx_unavailable"
    ∷ "lbx_timeout" ∷ "lbx_scope_mismatch" ∷ "lbx_authentication_failed" ∷ "lbx_scope_forbidden"
    ∷ "lbx_rate_limited" ∷ "lbx_attempts_exhausted" ∷ "preflight_deadline_exceeded"
    ∷ "preflight_closed" ∷ "preflight_saturated" ∷ [])

unfoldable pub known_failure_reasons : List Text
known_failure_reasons = map codes (
    "provider_rejected" ∷ "email_not_unique" ∷ "credentials_denied" ∷ "schema_invalid" ∷ "network"
    ∷ "timeout" ∷ "unknown" ∷ [])

pub financial_source_failure : Text
financial_source_failure = codes "financial_source_failure"

pub unknown_reason : Text
unknown_reason = codes "unknown"

-- `value in {…}`, else the default
unfoldable pub known_or : List Text → Text → Scalar → Text
known_or known default (text value) = if any (text_eq value) known then value else default
known_or known default _ = default

unfoldable pub within : ℤ → ℤ → Scalar → Option ℤ
within low high (number n) = if leb_ℤ low n && leb_ℤ n high then some n else none
within low high _ = none

-- -(2 ** 31) and 2 ** 31 - 1
abbrev pub int32_min : ℤ
int32_min = negsuc 2147483647

abbrev pub int32_max : ℤ
int32_max = pos 2147483647

unfoldable pub safe_failure : Failure → SafeFailure
safe_failure failure = record {
  status = within (pos 100) (pos 599) failure.http_status;
  code = within int32_min int32_max failure.lbx_code;
  reason = known_or known_failure_reasons unknown_reason failure.reason;
}

unfoldable pub failure_code : Failure → Text
failure_code failure = known_or known_failure_codes financial_source_failure failure.code

-- `date.fromisoformat(operation.recovery_hint_document["request"]["create_date"])`
unfoldable pub hinted_date : Operation → Outcome ℕ
hinted_date op = do
  hint ← or_raise op.recovery_hint_document purchase_history_unproven
  request ← or_raise hint.request purchase_history_unproven
  elim request [
    | agreement_request _ _ _ create_date ↦ ok create_date
    | subscription_request _ _ _ _ _ _ ↦ err purchase_history_unproven
  ]

abbrev pub has_schema : Text → Operation → Bool
has_schema schema op = some_and (λ s. text_eq s schema) op.recovery_hint_schema_version

unfoldable pub agreement_date : Operation → Outcome (Option ℕ)
agreement_date op =
    if kind_eq op.operation_kind agreement && has_schema financial_hint_schema op
    then hinted_date op >>= (λ date. ok (some date))
    else ok none

abbrev opt_map : {A B : Type 0} → (A → B) → Option A → Option B
opt_map f none = none
opt_map f (some a) = some (f a)

-- `_operation`
unfoldable pub operation_snapshot : Db → Operation → Bool → Outcome FinancialOperation
operation_snapshot db op may_send = do
  create_date ← agreement_date op
  let work = recovery_work db op.create_operation_id
  candidate ← proven_identity (candidate_of work)
  bound_id ← proven_identity (stored_identity op.bound_external_object_id)
  ok (record {
    id = op.create_operation_id;
    kind = op.operation_kind;
    state = op.operation_state;
    key = op.request_correlation_key;
    fence = op.send_fence;
    bound_id = bound_id;
    candidate_id = candidate;
    deadline = financial_recovery_deadline op work;
    may_send = may_send;
    last_failure = opt_map safe_failure (failure_of work);
    last_failure_code = opt_map failure_code (failure_of work);
    agreement_create_date = create_date;
  })

-- `tuple(_operation(db, op) for op in operations)`
unfoldable pub operation_snapshots : Db → List Operation → Outcome (List FinancialOperation)
operation_snapshots db [] = ok []
operation_snapshots db (op ∷ ops) = do
  first ← operation_snapshot db op false
  rest ← operation_snapshots db ops
  ok (first ∷ rest)

-- `accepted`
unfoldable pub accepted : PurchaseIntent → Outcome AcceptedPurchase
accepted row = do
  result ← or_raise row.accepted_snapshot purchase_history_unproven
  check
      (text_eq row.accepted_snapshot_schema_version result.schema_version
        && (text_eq row.product_id result.meaning.product_id
            && ((row.mapping_revision_id == result.meaning.revision_id)
                && (text_eq row.accepted_commercial_fingerprint result.offer.fingerprint
                    && (text_eq result.meaning.expected_fingerprint result.offer.fingerprint
                        && (text_eq row.billing_offer_id (billing_offer_id result.selection)
                            && text_eq result.selection.product_id row.product_id))))))
      purchase_history_unproven
  ok result

abbrev is_conflict : ReasonCode → Bool
is_conflict financial_binding_conflict = true
is_conflict _ = false

abbrev is_terms_change : ReasonCode → Bool
is_terms_change accepted_terms_changed_after_preparation = true
is_terms_change _ = false

abbrev is_unknown_outcome : ReasonCode → Bool
is_unknown_outcome (external_create_outcome_unknown _) = true
is_unknown_outcome _ = false

-- The reason codes of the open reviews of the operations.
unfoldable pub open_reasons : Db → List Operation → List ReasonCode
open_reasons db [] = []
open_reasons db (op ∷ ops) =
    map (λ c. c.reason_code) (open_reviews db op.create_operation_id) ++ open_reasons db ops

unfoldable pub purchase_reason : IntentState → List ReasonCode → Option PurchaseReason
purchase_reason IntentState.failed_before_external_effect reasons = some terms_changed
purchase_reason IntentState.manual_review reasons = some (
    if any is_conflict reasons
    then purchase_binding_conflict
    else if any is_terms_change reasons
    then purchase_terms_changed_after_preparation
    else if any is_unknown_outcome reasons
    then purchase_outcome_unknown
    else purchase_review_required)
purchase_reason IntentState.preparing reasons = some purchase_pending
purchase_reason IntentState.awaiting_external_result reasons = some purchase_pending
purchase_reason _ reasons = none

-- `_snapshot`
unfoldable pub snapshot : Db → PurchaseIntent → Outcome Purchase
snapshot db row = do
  let ops = operations db row.purchase_intent_id
  evidence ← accepted row
  shown ← operation_snapshots db ops
  ok (record {
    id = row.purchase_intent_id;
    user_id = row.user_id;
    customer_id = row.customer_id;
    account_id = row.external_billing_account_id;
    state = row.state;
    accepted = evidence;
    created_at = row.created_at;
    held =
        some_and (λ h. h.purchase_intent_id == row.purchase_intent_id)
          (hold db row.user_id row.product_id);
    operations = shown;
    reason = purchase_reason row.state (open_reasons db ops);
  })
