-- ===== src/Purchases/Contracts.antt =====
-- apps/api/app/domains/purchases/contracts.py: what a transaction shows of a purchase.
use payments_portal.Base.{ℕ, Bool, Option, none, List, Text}
use payments_portal.Base.Int.{ℤ}
use payments_portal.Store.{Kind, State, IntentState, AcceptedPurchase}

-- `last_failure`: the HTTP status, the LBX code and the reason.
pub record SafeFailure : Type 0 where
  pub status : Option ℤ
  pub code : Option ℤ
  pub reason : Text

pub record FinancialOperation : Type 0 where
  pub id : ℕ
  pub kind : Kind
  pub state : State
  pub key : Text
  pub fence : Option ℕ
  pub bound_id : Option Text
  pub candidate_id : Option Text
  pub deadline : Option ℕ
  pub may_send : Bool
  pub last_failure : Option SafeFailure
  pub last_failure_code : Option Text
  pub agreement_create_date : Option ℕ

-- `admission_snapshot`
unfoldable pub admission_snapshot : FinancialOperation → FinancialOperation
admission_snapshot op = record op { last_failure = none; last_failure_code = none }

pub data PurchaseReason : Type 0 where
  terms_changed purchase_binding_conflict purchase_terms_changed_after_preparation : PurchaseReason
  purchase_outcome_unknown purchase_review_required purchase_pending : PurchaseReason

pub record Purchase : Type 0 where
  pub id : ℕ
  pub user_id : ℕ
  pub customer_id : ℕ
  pub account_id : Text
  pub state : IntentState
  pub accepted : AcceptedPurchase
  pub created_at : ℕ
  pub held : Bool
  pub operations : List FinancialOperation
  pub reason : Option PurchaseReason
