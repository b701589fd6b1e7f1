-- ===== src/Purchases/Changed.antt =====
-- `changed_unsent_terms` of apps/api/app/domains/purchases/financial.py: the accepted terms have
-- changed, so the purchase ends, or goes to review where something may have been sent.
pub mod Release
use payments_portal.Base.{
  ℕ, Bool, true, false, not, ◌&&◌, ◌||◌, Option, none, some, List, [], ◌∷◌, ◌==◌, any, select,
  find?, Text, text_eq, some_and, is_none, opt_eq, if◌then◌else◌, Result, ok, err, ◌>>=◌, ◌>>◌,
  or_raise,
}
use payments_portal.Base.Int.{ℤ, eq_ℤ}
use payments_portal.Store.{
  Outcome, Moment, Db, Operation, Kind, subscription, State, IntentState, PurchaseIntent,
  accepted_terms_changed_after_preparation, kind_eq, operations, stop_iteration, is_open_send,
  save_intent,
}
use payments_portal.Purchases.Contracts.{FinancialOperation, SafeFailure, Purchase}
use payments_portal.Purchases.Snapshot.{operation_snapshots}
use payments_portal.Purchases.Locking.{locked}
use payments_portal.Purchases.Recovery.{review}

-- `==` on values that may be None, on the enums, and on the frozen dataclasses
abbrev pub opt_same : {A : Type 0} → (A → A → Bool) → Option A → Option A → Bool
opt_same same none none = true
opt_same same (some a) (some b) = same a b
opt_same same _ _ = false

unfoldable pub state_eq : State → State → Bool
state_eq State.pending State.pending = true
state_eq State.proven_not_sent State.proven_not_sent = true
state_eq State.possible_send State.possible_send = true
state_eq State.unknown State.unknown = true
state_eq State.bound State.bound = true
state_eq State.manual_review State.manual_review = true
state_eq _ _ = false

unfoldable pub intent_state_eq : IntentState → IntentState → Bool
intent_state_eq IntentState.created IntentState.created = true
intent_state_eq IntentState.preparing IntentState.preparing = true
intent_state_eq IntentState.awaiting_external_result IntentState.awaiting_external_result = true
intent_state_eq IntentState.linked IntentState.linked = true
intent_state_eq IntentState.resolved_no_external_effect IntentState.resolved_no_external_effect =
    true
intent_state_eq IntentState.failed_before_external_effect
      IntentState.failed_before_external_effect =
    true
intent_state_eq IntentState.manual_review IntentState.manual_review = true
intent_state_eq _ _ = false

abbrev failure_eq : SafeFailure → SafeFailure → Bool
failure_eq a b =
    opt_same eq_ℤ a.status b.status && (opt_same eq_ℤ a.code b.code && text_eq a.reason b.reason)

abbrev bool_eq : Bool → Bool → Bool
bool_eq true b = b
bool_eq false b = not b

unfoldable pub financial_operation_eq : FinancialOperation → FinancialOperation → Bool
financial_operation_eq a b =
    ((a.id == b.id) && (kind_eq a.kind b.kind && (state_eq a.state b.state && text_eq a.key b.key)))
    && ((opt_eq a.fence b.fence
          && (opt_same text_eq a.bound_id b.bound_id
              && (opt_same text_eq a.candidate_id b.candidate_id && opt_eq a.deadline b.deadline)))
        && (bool_eq a.may_send b.may_send
            && (opt_same failure_eq a.last_failure b.last_failure
                && (opt_same text_eq a.last_failure_code b.last_failure_code
                    && opt_eq a.agreement_create_date b.agreement_create_date))))

unfoldable pub operations_eq : List FinancialOperation → List FinancialOperation → Bool
operations_eq [] [] = true
operations_eq (a ∷ rest) (b ∷ others) = financial_operation_eq a b && operations_eq rest others
operations_eq _ _ = false

abbrev is_linked : IntentState → Bool
is_linked IntentState.linked = true
is_linked _ = false

-- A text that Python takes for true: there, and not empty.
abbrev pub is_filled : Option Text → Bool
is_filled none = false
is_filled (some []) = false
is_filled (some (c ∷ cs)) = true

-- Something may have reached the provider.
unfoldable pub has_external_effect : List Operation → Bool
has_external_effect ops =
    any (λ o. not (is_open_send o.operation_state) || is_filled o.bound_external_object_id) ops

-- `db.delete(queries.hold(db, row.user_id, row.product_id))`
unfoldable pub delete_hold : ℕ → Text → Db → Db
delete_hold user_id product_id db = record db {
  holds = select (λ h. not ((h.user_id == user_id) && text_eq h.product_id product_id)) db.holds;
}

abbrev pub failed_intent : Moment → PurchaseIntent → PurchaseIntent
failed_intent m row = record row {
  state = IntentState.failed_before_external_effect;
  resolved_at = some m.now;
  state_updated_at = m.now;
}

-- The caller decided on the snapshot `purchase`; a later move of the purchase makes that decision
-- void, before the operations are read.
unfoldable pub is_superseded : Purchase → PurchaseIntent → Bool
is_superseded purchase row = is_linked row.state || not (intent_state_eq row.state purchase.state)

-- What `changed_unsent_terms` does once it has read the operations. A later send, receipt or binding
-- makes the decision void as well.
unfoldable pub changed_rest :
    Moment → Purchase → Db → PurchaseIntent → List FinancialOperation → Outcome Db
changed_rest m purchase db row shown =
    let ops = operations db purchase.id in
    if not (operations_eq shown purchase.operations)
    then ok db
    else if has_external_effect ops
    then (or_raise (find? (λ o. kind_eq o.operation_kind subscription) ops) stop_iteration
        >>= λ target. ok (review m row target accepted_terms_changed_after_preparation db))
    else ok (delete_hold row.user_id row.product_id (save_intent (failed_intent m row) db))

unfoldable pub changed_current : Moment → Purchase → Db → PurchaseIntent → Outcome Db
changed_current m purchase db row =
    if is_superseded purchase row
    then ok db
    else (operation_snapshots db (operations db purchase.id) >>= λ shown.
        changed_rest m purchase db row shown)

unfoldable pub changed_unsent_terms : Moment → Purchase → Db → Outcome Db
changed_unsent_terms m purchase db =
    locked m db purchase >>= λ row. changed_current m purchase db row
