-- ===== src/Store/Queries.antt =====
-- apps/api/app/infrastructure/queries/purchases.py and billing_customers.py: the reads of the
-- purchase transactions. A row lock is granted or refused by the database, which the moment of the
-- transaction says; everything between the lock and the commit is one step.
use payments_portal.Base.{
  ℕ, ◌++◌, Bool, true, false, ◌&&◌, Option, none, some, List, ◌∷◌, ◌==◌, find?, select, any,
  text_eq, some_and, Result, ◌>>◌, raise_if, or_raise, if◌then◌else◌,
}
use payments_portal.Store.Errors.{Error, billing_busy, no_result_found}
use payments_portal.Store.Rows.{
  Kind, customer, agreement, subscription, Operation, Work, ReviewCase, ReasonCode, Customer,
  PurchaseIntent, ScopeHold, Subscription, Db, financial_binding_conflict,
  accepted_terms_changed_after_preparation, external_create_outcome_unknown,
  customer_original_key_mismatch, customer_identity_conflict, other_reason,
}
use payments_portal.Store.Tables.{get}

abbrev pub Outcome : Type 0 → Type 0
Outcome A = Result Error A

-- What a transaction meets: the time, the values of its `uuid4()` calls, and whether its row locks
-- are granted within the timeout. The calls of `utc_now()` in one transaction give one instant.
pub record Moment : Type 0 where
  pub now : ℕ
  pub fence : ℕ
  pub subscription_id : ℕ
  pub observation_id : ℕ
  pub user_busy : Bool
  pub customer_busy : Bool

abbrev pub kind_eq : Kind → Kind → Bool
kind_eq customer customer = true
kind_eq agreement agreement = true
kind_eq subscription subscription = true
kind_eq _ _ = false

-- `hold`
unfoldable pub hold : Db → ℕ → List ℕ → Option ScopeHold
hold db user_id product_id =
    find? (λ h. (h.user_id == user_id) && text_eq h.product_id product_id) db.holds

-- `owned`
unfoldable pub owned : Db → ℕ → ℕ → Option PurchaseIntent
owned db user_id purchase_id =
    find? (λ r. (r.user_id == user_id) && (r.purchase_intent_id == purchase_id)) db.intents

abbrev pub of_purchase : ℕ → Kind → Operation → Bool
of_purchase purchase_id kind op =
    some_and (λ p. p == purchase_id) op.purchase_intent_id && kind_eq op.operation_kind kind

-- `operations`: a purchase has agreement and subscription operations, which the query orders by kind.
unfoldable pub operations : Db → ℕ → List Operation
operations db purchase_id =
    select (of_purchase purchase_id agreement) db.operations
    ++ select (of_purchase purchase_id subscription) db.operations

-- `linked_subscription`
unfoldable pub linked_subscription : Db → ℕ → Option Subscription
linked_subscription db purchase_id =
    find? (λ s. s.purchase_intent_id == purchase_id) db.subscriptions

-- `recovery_work`
unfoldable pub recovery_work : Db → ℕ → Option Work
recovery_work db operation_id = get (λ w. w.coalescing_key) operation_id db.works

-- `open_customer_reviews`
unfoldable pub open_reviews : Db → ℕ → List ReviewCase
open_reviews db operation_id =
    select (λ c. c.is_open && (c.scope_reference == operation_id)) db.reviews

-- `case.reason_code == reason`
unfoldable pub reason_eq : ReasonCode → ReasonCode → Bool
reason_eq financial_binding_conflict financial_binding_conflict = true
reason_eq accepted_terms_changed_after_preparation accepted_terms_changed_after_preparation = true
reason_eq (external_create_outcome_unknown k) (external_create_outcome_unknown l) = kind_eq k l
reason_eq customer_original_key_mismatch customer_original_key_mismatch = true
reason_eq customer_identity_conflict customer_identity_conflict = true
reason_eq (other_reason s) (other_reason t) = text_eq s t
reason_eq _ _ = false

-- A case is opened unless one with the reason is open.
unfoldable pub open_case : ReviewCase → Db → Db
open_case new db = record db {
  reviews =
      if any (λ r. reason_eq r.reason_code new.reason_code) (open_reviews db new.scope_reference)
      then db.reviews
      else new ∷ db.reviews;
}

-- `customer_operation`
unfoldable pub customer_operation : Db → ℕ → Option Operation
customer_operation db customer_id =
    find? (λ o. (o.customer_id == customer_id) && kind_eq o.operation_kind customer) db.operations

-- `financial_recovery_deadline`
abbrev pub active_deadline : Option Work → Option ℕ
active_deadline none = none
active_deadline (some work) = work.active_recovery_deadline_at

unfoldable pub financial_recovery_deadline : Operation → Option Work → Option ℕ
financial_recovery_deadline op work = elim (active_deadline work) [
  | none ↦ op.unknown_recovery_deadline_at
  | some at ↦ some at
]

-- `lock_user` of apps/api/app/domains/billing/customers.py
abbrev pub lock_user : Moment → Outcome (Unit {0})
lock_user m = raise_if m.user_busy billing_busy

-- `lock_customer`
unfoldable pub lock_customer : Moment → Db → ℕ → Outcome Customer
lock_customer m db customer_id = do
  raise_if m.customer_busy billing_busy
  or_raise (get (λ c. c.customer_id) customer_id db.customers) no_result_found
