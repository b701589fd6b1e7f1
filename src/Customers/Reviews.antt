-- ===== src/Customers/Reviews.antt =====
-- apps/api/app/domains/billing/customer_reviews.py: which open reviews let a customer's create go on,
-- and the reviews that the create opens.
pub mod Admits
pub mod Reasons
use payments_portal.Store.{
  Customer, Db, ReviewCase, Operation, Moment, ReasonCode, Outcome, reason_eq, State, Binding,
  external_create_outcome_unknown, open_reviews, customer_original_key_mismatch, save_operation,
  kind_eq, open_case, customer_identity_conflict, Kind, is_reviewed, is_bound_customer,
  save_customer, is_conflicting, billing_identity_conflict, billing_customer_review,
}
use payments_portal.Base.{
  opt_text_eq, ◌>>◌, some, Bool, Text, List, codes, text_eq, Option, any, ◌&&◌, if◌then◌else◌, not,
  false, is_none, is_some, none, ◌==◌, true, all, ◌||◌, select, raise_if, ok,
}
use payments_portal.Customers.Open.{}

-- `review.reason_code in allowed`
abbrev pub is_allowed : Bool → ReasonCode → Bool
is_allowed key (external_create_outcome_unknown kind) = kind_eq kind Kind.customer
is_allowed key customer_original_key_mismatch = key
is_allowed key _ = false

-- `_check_reviews`
unfoldable pub check_reviews : Customer → List ReviewCase → Bool → Outcome (Unit {0})
check_reviews c reviews key = do
  let blocked = any (λ r. not (is_allowed key r.reason_code)) reviews
  raise_if (is_conflicting c.binding_state && (not key || blocked)) billing_identity_conflict
  raise_if blocked billing_customer_review

-- `customer_admission_reviews`
unfoldable pub admission_reviews : Db → Customer → Operation → Outcome (Unit {0})
admission_reviews db c op = check_reviews c (open_reviews db op.create_operation_id) false

-- `CUSTOMER_KEY_EVIDENCE`
unfoldable pub key_evidence : Text
key_evidence = codes "customer-original-key-mismatch:v1"

-- A review with the recorded evidence of the proven identity.
unfoldable pub names_identity : Customer → Operation → ReviewCase → Bool
names_identity c op r =
    text_eq r.evidence_schema_version key_evidence
    && (is_none r.evidence_document.purchase_intent_id
        && ((r.evidence_document.create_operation_id == op.create_operation_id)
            && opt_text_eq r.evidence_document.provider_customer_id c.provider_customer_id))

abbrev pub is_key_review : ReviewCase → Bool
is_key_review r = reason_eq r.reason_code customer_original_key_mismatch

unfoldable pub allows_key_recovery : Customer → Operation → List ReviewCase → Bool
allows_key_recovery c op reviews =
    any is_key_review reviews
    && ((is_some c.provider_customer_id
          && opt_text_eq op.bound_external_object_id c.provider_customer_id)
        && ((text_eq op.request_correlation_key c.billing_customer_key
              && is_reviewed op.operation_state)
            && all (names_identity c op) (select is_key_review reviews)))

-- `customer_recovery_reviews`
unfoldable pub recovery_reviews : Db → Customer → Operation → Outcome (List ReviewCase)
recovery_reviews db c op = do
  let reviews = open_reviews db op.create_operation_id
  check_reviews c reviews (allows_key_recovery c op reviews)
  ok reviews

-- The case that `record_customer_review` opens.
unfoldable pub customer_case : Operation → ReasonCode → ReviewCase
customer_case op reason = record {
  reason_code = reason;
  scope_reference = op.create_operation_id;
  evidence_schema_version =
      if reason_eq reason customer_original_key_mismatch then key_evidence else codes "v1";
  evidence_document = record {
    purchase_intent_id = none;
    create_operation_id = op.create_operation_id;
    provider_customer_id =
        if reason_eq reason customer_original_key_mismatch
        then op.bound_external_object_id
        else none;
  };
  is_open = true;
  resolved_at = none;
}

abbrev pub in_manual_review : Operation → Operation
in_manual_review op = record op { operation_state = State.manual_review }

-- `record_customer_review`
unfoldable pub record_review : Operation → ReasonCode → Db → Db
record_review op reason db =
    save_operation (in_manual_review op) (open_case (customer_case op reason) db)

-- `original_id`: the point read of the proven identity has another key.
unfoldable pub is_original : Customer → Operation → Option Text → Bool → Bool
is_original c op provider ambiguous =
    not ambiguous
    && (is_some provider
        && ((is_bound_customer c.binding_state || is_conflicting c.binding_state)
            && (opt_text_eq c.provider_customer_id op.bound_external_object_id
                && opt_text_eq op.bound_external_object_id provider)))

abbrev pub conflicting : Customer → Customer
conflicting c = record c { binding_state = Binding.identity_conflict }

-- `record_customer_conflict`
unfoldable pub record_conflict : Moment → Customer → Operation → Option Text → Bool → Db → Db
record_conflict m c op provider ambiguous db =
    record_review (record op { send_fence = some m.fence })
      (if is_original c op provider ambiguous
        then customer_original_key_mismatch
        else customer_identity_conflict)
      (save_customer (conflicting c) db)
