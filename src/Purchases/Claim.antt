-- ===== src/Purchases/Claim.antt =====
-- `claim_financial` of apps/api/app/domains/purchases/financial.py: the claim that must be committed
-- before a create request may be sent.
pub mod Request
pub mod Fence
pub mod Advances
use payments_portal.Base.{
  ℕ, ◌+◌, Bool, true, false, not, ◌&&◌, ◌||◌, Option, none, some, List, ◌∷◌, ◌==◌, any, find?, Text,
  text_eq, is_none, is_some, some_and, opt_eq, if◌then◌else◌, Result, ok, err, ◌>>=◌, ◌>>◌, check,
  raise_if, or_raise, ◌≡◌, >>=-eq-ok,
}
use payments_portal.Store.{
  Outcome, Moment, Db, Operation, Work, Customer, ReviewCase, ReasonCode, Scalar, null,
  RequestDocument, request_eq, Kind, agreement, subscription, State, IntentState, WorkState,
  Binding, PurchaseIntent, external_create_outcome_unknown, kind_eq, owned, hold, operations,
  recovery_work, open_reviews, customer_operation, lock_user, lock_customer, purchase_not_found,
  purchase_history_unproven, purchase_pending, purchase_scope_released, billing_identity_unproven,
  billing_identity_conflict, billing_customer_review, stop_iteration, in_review, is_bound,
  is_conflicting, is_not_sent, is_open_send, save_intent, save_operation, save_work,
}
use payments_portal.Store.Tables.{put}
use payments_portal.Customers.Open.{recovery_window}
use payments_portal.Customers.Reviews.{admission_reviews}
use payments_portal.Purchases.Contracts.{FinancialOperation, Purchase}
use payments_portal.Purchases.Locking.{
  locked, next_operation, with_operation, with_operation-eq-ok, with_state,
}
use payments_portal.Purchases.Snapshot.{
  operation_snapshot, financial_hint_schema, has_schema, candidate_of,
}

-- The first two tests: a claim that leaves the operation as it is.
unfoldable pub keeps_claim : PurchaseIntent → Operation → FinancialOperation → Bool
keeps_claim row op expected =
    (in_review row.state
      || (not (is_open_send op.operation_state)
          || (not (opt_eq op.send_fence expected.fence) || is_some op.bound_external_object_id)))
    || (not (is_not_sent op.operation_state) && is_some op.unknown_since)

abbrev is_null : Scalar → Bool
is_null null = true
is_null _ = false

-- The stored hint's request, or None where there is no document.
abbrev pub hinted_request : Operation → Option RequestDocument
hinted_request op = elim op.recovery_hint_document [ none ↦ none | some hint ↦ hint.request ]

-- What a retry after a proven no-send needs: the first send's history, the same request, and a
-- recovery item that no receipt has marked.
unfoldable pub retry_unproven : Operation → Option Work → RequestDocument → Bool
retry_unproven op work request =
    is_none op.unknown_since
    || (not (has_schema financial_hint_schema op)
        || (not (some_and (λ r. request_eq r request) (hinted_request op))
            || (is_none work || not (is_null (candidate_of work)))))

-- A subscription is created only under a bound agreement.
unfoldable pub agreement_bound : List Operation → Bool
agreement_bound ops =
    any (λ o. kind_eq o.operation_kind agreement && is_bound o.operation_state) ops

-- The operation's new columns. The first send's history is written once.
unfoldable pub claimed : Moment → Purchase → RequestDocument → Operation → Operation
claimed m purchase request op =
    if is_not_sent op.operation_state
    then record op { send_fence = some m.fence; operation_state = State.possible_send }
    else record op {
      send_fence = some m.fence;
      operation_state = State.possible_send;
      unknown_since = some m.now;
      unknown_recovery_deadline_at = some (m.now + recovery_window);
      recovery_hint_schema_version = some financial_hint_schema;
      recovery_hint_document = some (record {
        request = some request;
        purchase_intent_id = some purchase.id;
        accepted_fingerprint = some purchase.accepted.offer.fingerprint;
        provider_customer_candidate_id = null;
      });
    }

-- The recovery item, added or rescheduled.
unfoldable pub schedule_recovery : Moment → ℕ → Option Work → Db → Db
schedule_recovery m id none db = record db {
  works =
      record {
        coalescing_key = id;
        candidate_id = null;
        last_failure = none;
        next_attempt_at = m.now + recovery_window;
        active_recovery_deadline_at = some (m.now + recovery_window);
        work_state = WorkState.pending;
        attempt_count = 1;
        lease_owner = none;
        lease_expires_at = none;
        last_error_classification = none;
        last_failed_create = none;
      }
      ∷ db.works;
}
schedule_recovery m id (some work) db =
    save_work
      (record work {
        work_state = WorkState.pending;
        active_recovery_deadline_at = some (m.now + recovery_window);
        next_attempt_at = m.now + recovery_window;
        attempt_count = work.attempt_count + 1;
      })
      db

-- What the claim writes.
unfoldable pub claim_rows :
    Moment → Purchase → RequestDocument → PurchaseIntent → Operation → Db → Db
claim_rows m purchase request row op db = save_intent (with_state m IntentState.preparing row) (
    schedule_recovery m op.create_operation_id (recovery_work db op.create_operation_id)
      (save_operation (claimed m purchase request op) db))

-- From the customer lock to the checks before the first assignment.
unfoldable pub admit_claim :
    Moment → RequestDocument → PurchaseIntent → List Operation → Operation → Db → Outcome (Unit {0})
admit_claim m request row ops op db = do
  slot ← lock_customer m db row.customer_id
  create ← or_raise (customer_operation db slot.customer_id) billing_identity_unproven
  admission_reviews db slot create
  raise_if
      (is_not_sent op.operation_state
        && retry_unproven op (recovery_work db op.create_operation_id) request)
      purchase_history_unproven
  raise_if (kind_eq op.operation_kind subscription && not (agreement_bound ops)) purchase_pending

-- What the claim does with the rows.
unfoldable pub claim_rest :
    Moment
    → Purchase
    → FinancialOperation
    → RequestDocument
    → Db
    → PurchaseIntent
    → Operation
    → Outcome (FinancialOperation × Db)
claim_rest m purchase expected request db row op =
    if keeps_claim row op expected
    then (operation_snapshot db op false >>= λ shown. ok (shown, db))
    else (admit_claim m request row (operations db purchase.id) op db
        >> (let after = claim_rows m purchase request row op db in
            operation_snapshot after (claimed m purchase request op) true >>= λ shown.
            ok (shown, after)))

-- `claim_financial`. `session` is what `authenticate` makes of the caller's token: a user, or its
-- refusal. A refusal rolls the transaction back.
unfoldable pub claim_financial :
    Moment
    → Outcome ℕ
    → Purchase
    → FinancialOperation
    → RequestDocument
    → Db
    → Outcome (FinancialOperation × Db)
claim_financial m session purchase expected request db = do
  user ← session
  check (user == purchase.user_id) purchase_not_found
  with_operation m db purchase expected (claim_rest m purchase expected request db)
