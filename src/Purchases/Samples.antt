-- ===== src/Purchases/Samples.antt =====
-- A small portal: one user with a bound customer and one accepted purchase with its two operations.
pub mod Runs
use payments_portal.Customers.Reviews.{admission_reviews, check_reviews}
use payments_portal.Purchases.Escalate.{
  overdue_rows, insert_overdue, sort_overdue, limited, overdue_financial, read_purchase,
  escalate_rest, escalate_operation, escalate_step, escalate_operations, escalate_candidates,
  escalate_overdue_financial,
}
use payments_portal.Purchases.Bind.{
  admit_binding, bound_to, breaks_binding, resolve_case, released, bound_rows, linked_or_new,
  link_subscription, bind_rest, bind_once, bind_financial,
}
use payments_portal.Purchases.Changed.{
  changed_unsent_terms, changed_rest, is_superseded, state_eq, intent_state_eq,
  financial_operation_eq, operations_eq, has_external_effect, delete_hold, changed_current,
}
use payments_portal.Purchases.Run.{apply, run, Transaction, waits, receives}
use payments_portal.Purchases.Recovery.{
  keeps_send, not_sent_failure, provider_number, receipt_fits, receipt_rest, record_receipt, review,
  demoted, settle, pending_rest, financial_pending, financial_case,
}
use payments_portal.Purchases.Recovery
use payments_portal.Purchases.Evolution.{IsSound, op_key}
use payments_portal.Store.Tables.{IsKeyed, get}
use payments_portal.Purchases.Snapshot.{
  financial_hint_schema, operation_snapshot, agreement_date, hinted_date, proven_identity,
  is_provider_id, safe_failure, failure_code, known_or, within, accepted, open_reasons,
  purchase_reason, operation_snapshots, snapshot,
}
use payments_portal.Purchases.Contracts.{Purchase, FinancialOperation}
use payments_portal.Commerce.{
  billing_offer_id, Decimal, CurrentOffer, finite, zero_decimal, PeriodUnit, PeriodAnchor,
  configured_source, billing_offer_id,
}
use payments_portal.Purchases.Claim.{
  claim_financial, claim_rest, keeps_claim, admit_claim, retry_unproven, agreement_bound, claimed,
  schedule_recovery, claim_rows,
}
use payments_portal.Purchases.Locking.{locked, next_operation}
use payments_portal.Base.{
  ℕ, ◌≡◌, refl, ok, true, false, none, some, [], ◌∷◌, codes, text_eq, str, int, ◌+◌, arith, List,
  subst, some-injective, sym, ◌∙◌,
}
use payments_portal.Base.Int.{pos}
use payments_portal.Store.{
  Moment, Db, Kind, Operation, AcceptedPurchase, PurchaseIntent, Binding, RequestDocument, Work,
  State, IntentState, agreement_request, null, WorkState, hold, owned, operations,
  linked_subscription, recovery_work, open_reviews, customer_operation, financial_recovery_deadline,
  lock_customer, request_eq, reason_eq, open_case,
}

-- Everything that a run computes with.
unfoldable pub program : Unit {0}
unfolding claim_financial claim_rest keeps_claim admit_claim admission_reviews check_reviews
    retry_unproven agreement_bound claimed schedule_recovery claim_rows locked next_operation
    operation_snapshot agreement_date hinted_date proven_identity is_provider_id text_eq str int
    financial_hint_schema hold owned operations linked_subscription recovery_work open_reviews
    customer_operation financial_recovery_deadline lock_customer request_eq safe_failure
    failure_code known_or within accepted open_reasons purchase_reason operation_snapshots snapshot
    Recovery.proven_not_sent Recovery.not_sent_rest keeps_send not_sent_failure provider_number
    receipt_fits receipt_rest record_receipt reason_eq open_case financial_case review demoted
    settle pending_rest financial_pending apply run changed_unsent_terms changed_rest
    changed_current is_superseded state_eq intent_state_eq financial_operation_eq operations_eq
    has_external_effect delete_hold admit_binding bound_to breaks_binding resolve_case released
    bound_rows overdue_rows insert_overdue sort_overdue limited overdue_financial read_purchase
    escalate_rest escalate_operation escalate_step escalate_operations escalate_candidates
    escalate_overdue_financial linked_or_new link_subscription bind_rest bind_once bind_financial
    billing_offer_id
program = tt

abbrev pub moment : ℕ → ℕ → Moment
moment now fence = record {
  now = now;
  fence = fence;
  subscription_id = fence + 500;
  observation_id = fence + 600;
  user_busy = false;
  customer_busy = false;
}

abbrev pub operation : ℕ → Kind → Operation
operation id kind = record {
  create_operation_id = id;
  operation_kind = kind;
  customer_id = 3;
  external_billing_account_id = some (9 ∷ []);
  purchase_intent_id = some 10;
  request_correlation_key = id ∷ [];
  operation_state = State.pending;
  send_fence = none;
  bound_external_object_id = none;
  unknown_since = none;
  unknown_recovery_deadline_at = none;
  recovery_hint_schema_version = none;
  recovery_hint_document = none;
  resolved_at = none;
}

abbrev pub the_agreement : Operation
the_agreement = operation 20 Kind.agreement

abbrev pub the_subscription : Operation
the_subscription = operation 21 Kind.subscription

abbrev pub the_customer_create : Operation
the_customer_create = record (operation 19 Kind.customer) {
  purchase_intent_id = none;
  operation_state = State.bound;
  bound_external_object_id = some (49 ∷ []);
}

abbrev pub price : Decimal
price = finite false 100 (pos 0)

abbrev pub the_offer : CurrentOffer
the_offer = record {
  money = record {
    currency = 82 ∷ [];
    decimal_places = 2;
    recurring_unit_amount = price;
    connection_unit_amount = zero_decimal;
    recurring_amount = price;
    connection_amount = zero_decimal;
  };
  period = record {
    unit = PeriodUnit.month;
    length = 1;
    anchor = PeriodAnchor.calendar_month;
    price_effective_from = 100;
    price_effective_until = none;
  };
  quantity = record { selected = finite false 1 (pos 0); minimum = pos 1; maximum = pos 1 };
  tariff_id = 1;
  tariff_service_id = 2;
  period_id = 3;
  period_membership_id = 4;
  price_id = 5;
  prepaid = true;
  full_funding_required = true;
  block_to_close_days = 0;
  evidence_mode = configured_source;
  observed_at = 900;
  fingerprint = 70 ∷ [];
}

abbrev pub the_evidence : AcceptedPurchase
the_evidence = record {
  schema_version = 86 ∷ [];
  meaning = record {
    product_id = 80 ∷ [];
    revision_id = 4;
    expected_fingerprint = 70 ∷ [];
    documents = [];
  };
  selection = record {
    product_id = 80 ∷ [];
    tariff_id = 1;
    tariff_service_id = 2;
    period_id = 3;
    quantity = 1;
  };
  offer = the_offer;
  provider_origin = 79 ∷ [];
  seller_id = 6;
}

abbrev pub the_intent : PurchaseIntent
the_intent = record {
  purchase_intent_id = 10;
  user_id = 1;
  customer_id = 3;
  external_billing_account_id = 9 ∷ [];
  product_id = 80 ∷ [];
  billing_offer_id = codes "selected-offer:v1:1:2:3";
  mapping_revision_id = 4;
  accepted_commercial_fingerprint = 70 ∷ [];
  accepted_snapshot_schema_version = 86 ∷ [];
  accepted_snapshot = some the_evidence;
  state = IntentState.created;
  created_at = 900;
  state_updated_at = 900;
  resolved_at = none;
}

abbrev pub initial : Db
initial = record {
  intents = the_intent ∷ [];
  holds = record { user_id = 1; product_id = 80 ∷ []; purchase_intent_id = 10 } ∷ [];
  operations = the_customer_create ∷ the_subscription ∷ the_agreement ∷ [];
  works = [];
  reviews = [];
  customers =
      record {
        customer_id = 3;
        user_id = 1;
        external_billing_account_id = 9 ∷ [];
        provider_origin = some (79 ∷ []);
        billing_customer_key = 19 ∷ [];
        provider_customer_id = some (49 ∷ []);
        binding_state = Binding.bound;
      }
      ∷ [];
  subscriptions = [];
  observations = [];
  heads = [];
}

-- What a caller sees of an operation that was never claimed.
abbrev pub seen : ℕ → Kind → FinancialOperation
seen id kind = record {
  id = id;
  kind = kind;
  state = State.pending;
  key = id ∷ [];
  fence = none;
  bound_id = none;
  candidate_id = none;
  deadline = none;
  may_send = false;
  last_failure = none;
  last_failure_code = none;
  agreement_create_date = none;
}

abbrev pub the_purchase : Purchase
the_purchase = record {
  id = 10;
  user_id = 1;
  customer_id = 3;
  account_id = 9 ∷ [];
  state = IntentState.created;
  accepted = the_evidence;
  created_at = 900;
  held = true;
  operations = seen 20 Kind.agreement ∷ seen 21 Kind.subscription ∷ [];
  reason = none;
}

abbrev pub the_request : RequestDocument
the_request = agreement_request 1 6 (65 ∷ []) 150
