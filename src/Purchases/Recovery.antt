-- ===== src/Purchases/Recovery.antt =====
-- `proven_not_sent`, `record_receipt`, `_review` and `financial_pending` of
-- apps/api/app/domains/purchases/financial.py: what a finished or failed send leaves behind.
pub mod Advances
pub mod Receipts
pub mod Settles
mod Tests
use payments_portal.Base.{
  ℕ, ◌^◌, Bool, true, false, not, ◌&&◌, ◌||◌, Option, none, some, ◌∷◌, ◌==◌, ltb, leb, any, Text,
  codes, text_eq, str, is_none, is_some, none_or, some_and, opt_eq, if◌then◌else◌, Result, ok, err,
  ◌>>=◌, ◌>>◌, check, raise_if, or_raise,
}
use payments_portal.Base.Int.{ℤ, pos, negsuc}
use payments_portal.Store.{
  Outcome, Moment, Db, Operation, Work, Failure, ReviewCase, ReasonCode, Scalar, null, text, number,
  other, Kind, State, IntentState, WorkState, PurchaseIntent, financial_binding_conflict,
  accepted_terms_changed_after_preparation, external_create_outcome_unknown,
  customer_original_key_mismatch, customer_identity_conflict, other_reason, kind_eq, operations,
  recovery_work, financial_recovery_deadline, open_reviews, value_error, purchase_pending,
  purchase_review_required, open_case, in_review, is_bound, is_in_flight, is_not_sent, is_reviewed,
  save_intent, save_operation, save_work,
}
use payments_portal.Purchases.Contracts.{FinancialOperation, Purchase}
use payments_portal.Purchases.Snapshot.{financial_hint_schema, has_schema, candidate_of}
use payments_portal.Purchases.Locking.{with_operation, locked, next_operation, with_state}

abbrev is_null : Scalar → Bool
is_null null = true
is_null _ = false

-- `work is None or work.payload_document.get("candidate_id") is not None`
abbrev has_receipt : Option Work → Bool
has_receipt work = not (is_null (candidate_of work))

-- The early return of `proven_not_sent`.
unfoldable pub keeps_send : PurchaseIntent → Operation → FinancialOperation → Option Work → Bool
keeps_send row op expected work =
    (not expected.may_send || (is_none expected.fence || not (opt_eq op.send_fence expected.fence)))
    || ((not (is_in_flight op.operation_state) || is_some op.bound_external_object_id)
        || ((is_none op.unknown_since || not (has_schema financial_hint_schema op))
            || (is_none work || (has_receipt work || in_review row.state))))

-- `{"code": "lbx_create_not_sent", "reason": "network"}`
unfoldable pub not_sent_failure : Failure
not_sent_failure = record {
  code = text (codes "lbx_create_not_sent");
  http_status = null;
  lbx_code = null;
  reason = text (codes "network");
}

abbrev pub refenced : Moment → State → Operation → Operation
refenced m state op = record op { operation_state = state; send_fence = some m.fence }

abbrev save_not_sent : Option Work → Db → Db
save_not_sent none db = db
save_not_sent (some work) db =
    save_work (record work { work_state = WorkState.done; last_failure = some not_sent_failure }) db

-- What `proven_not_sent` does with the rows.
unfoldable pub not_sent_rest :
    Moment → FinancialOperation → Db → PurchaseIntent → Operation → Outcome Db
not_sent_rest m expected db row op =
    let work = recovery_work db op.create_operation_id in
    if keeps_send row op expected work
    then ok db
    else ok (
        save_intent (with_state m IntentState.preparing row)
          (save_not_sent work (save_operation (refenced m State.proven_not_sent op) db)))

unfoldable pub proven_not_sent : Moment → Purchase → FinancialOperation → Db → Outcome Db
proven_not_sent m purchase expected db =
    with_operation m db purchase expected (not_sent_rest m expected db)

-- `type(provider_id) is int and 0 < provider_id < 10**20`
unfoldable pub provider_number : ℤ → Outcome ℕ
provider_number (pos n) = if ltb 0 n && ltb n (10 ^ 20) then ok n else err value_error
provider_number (negsuc n) = err value_error

-- `candidate not in {None, str(provider_id)}`, negated
unfoldable pub receipt_fits : ℕ → Scalar → Bool
receipt_fits provider null = true
receipt_fits provider (text t) = text_eq t (str provider)
receipt_fits provider _ = false

-- What `record_receipt` does with the rows.
unfoldable pub receipt_rest : FinancialOperation → ℕ → Db → PurchaseIntent → Operation → Outcome Db
receipt_rest expected provider db row op = do
  check
      (opt_eq op.send_fence expected.fence
        && (expected.may_send && is_in_flight op.operation_state))
      purchase_pending
  work ← or_raise (recovery_work db op.create_operation_id) purchase_review_required
  check (receipt_fits provider work.candidate_id) purchase_review_required
  ok (save_work (record work { candidate_id = text (str provider) }) db)

unfoldable pub record_receipt : Moment → Purchase → FinancialOperation → ℤ → Db → Outcome Db
record_receipt m purchase expected provider_id db = do
  provider ← provider_number provider_id
  with_operation m db purchase expected (receipt_rest expected provider db)

-- The case that `_review` opens.
unfoldable pub financial_case : PurchaseIntent → Operation → ReasonCode → ReviewCase
financial_case row op reason = record {
  reason_code = reason;
  scope_reference = op.create_operation_id;
  evidence_schema_version = codes "financial-review:v1";
  evidence_document = record {
    purchase_intent_id = some row.purchase_intent_id;
    create_operation_id = op.create_operation_id;
    provider_customer_id = none;
  };
  is_open = true;
  resolved_at = none;
}

-- `_review`
unfoldable pub review : Moment → PurchaseIntent → Operation → ReasonCode → Db → Db
review m row op reason db = save_intent (with_state m IntentState.manual_review row) (
    save_operation (refenced m State.manual_review op)
      (open_case (financial_case row op reason) db))

abbrev pub is_due : Moment → Option ℕ → Bool
is_due m deadline = some_and (λ at. leb at m.now) deadline

abbrev rests : IntentState → Bool
rests IntentState.manual_review = true
rests IntentState.linked = true
rests _ = false

-- The operation's state after an inconclusive read.
abbrev pub awaiting : Operation → Operation
awaiting op = record op {
  operation_state = if is_some op.unknown_since then State.unknown else State.pending;
}

-- The branches of `financial_pending`: the operation and the tables behind them, or `none` where the
-- function returns at once.
unfoldable pub demoted :
    Moment → Bool → Option ℕ → PurchaseIntent → Operation → Db → Option (Operation × Db)
demoted m conflict deadline row op db =
    if conflict
    then some (refenced m State.manual_review op, review m row op financial_binding_conflict db)
    else if is_not_sent op.operation_state
    then none
    else if not (is_bound op.operation_state)
    then if is_due m deadline
      then some (
        refenced m State.manual_review op,
        review m row op (external_create_outcome_unknown op.operation_kind) db,
      )
      else if not (is_reviewed op.operation_state)
      then some (
        awaiting op,
        save_intent (with_state m IntentState.awaiting_external_result row)
            (save_operation (awaiting op) db),
      )
      else some (op, db)
    else if not (rests row.state)
    then some (op, save_intent (with_state m IntentState.awaiting_external_result row) db)
    else some (op, db)

abbrev pub or_failure : Option Failure → Option Failure → Option Failure
or_failure none old = old
or_failure (some new) old = some new

-- The recovery item behind the branches.
unfoldable pub settle : Moment → Option Failure → Option Work → Operation → Db → Db
settle m facts none op db = db
settle m facts (some work) op db =
    save_work
      (if is_bound op.operation_state
        then record work {
          work_state = WorkState.pending;
          next_attempt_at = m.now;
          last_failure = or_failure facts work.last_failure;
        }
        else record work { last_failure = or_failure facts work.last_failure })
      db

-- What `financial_pending` does with the rows.
unfoldable pub pending_rest :
    Moment
    → FinancialOperation
    → Bool
    → Option Failure
    → Db
    → PurchaseIntent
    → Operation
    → Outcome Db
pending_rest m expected conflict facts db row op =
    let work = recovery_work db op.create_operation_id in
    if not (opt_eq op.send_fence expected.fence)
    then ok db
    else (elim (demoted m conflict (financial_recovery_deadline op work) row op db) [
      | none ↦ ok db
      | some (op', db') ↦ ok (settle m facts work op' db')
    ])

unfoldable pub financial_pending :
    Moment → Purchase → FinancialOperation → Bool → Option Failure → Db → Outcome Db
financial_pending m purchase expected conflict facts db =
    with_operation m db purchase expected (pending_rest m expected conflict facts db)
