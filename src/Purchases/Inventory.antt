-- ===== src/Purchases/Inventory.antt =====
-- `other_inventory_purchase` of apps/api/app/domains/purchases/inventory.py, `customer_for_purchase`
-- of service.py and the query `agreement_purchase` of
-- apps/api/app/infrastructure/queries/purchases.py: whose a provider's subscription is, and which
-- provider customer a purchase may use.
pub mod Owner
pub mod Usable
mod Samples
mod Tests
use payments_portal.Purchases.Snapshot.{snapshot}
use payments_portal.Customers.Open.{CustomerOpen, shown}
use payments_portal.Customers.Scope.{is_text}
use payments_portal.Purchases.Contracts.{Purchase, FinancialOperation}
use payments_portal.Store.{
  Db, Kind, IntentState, Moment, Binding, PurchaseIntent, Outcome, lock_user, lock_customer,
  of_purchase, agreement, billing_identity_unproven, kind_eq, customer_operation, subscription,
  Customer, Operation, is_bound, is_bound_customer, is_in_flight,
}
use payments_portal.Base.{
  ◌>>◌, ◌>>=◌, check, or_raise, false, Text, ℕ, Option, Bool, List, some_and, any, find?, none,
  true, if◌then◌else◌, ◌&&◌, text_eq, ◌==◌, ◌∷◌, str, some, ok, is_none, none_or, [],
}

-- Some agreement operation of the purchase is bound to the identity.
unfoldable pub binds_agreement : Db → ℕ → Text → Bool
binds_agreement db purchase_id agreement_id =
    any
      (λ o. of_purchase purchase_id agreement o && is_text agreement_id o.bound_external_object_id)
      db.operations

-- `agreement_purchase`
unfoldable pub agreement_purchase : Db → ℕ → ℕ → Text → Text → Option PurchaseIntent
agreement_purchase db user_id customer_id account_id agreement_id =
    find?
      (λ r.
        ((r.user_id == user_id) && (r.customer_id == customer_id))
        && (text_eq r.external_billing_account_id account_id
            && binds_agreement db r.purchase_intent_id agreement_id))
      db.intents

-- `{op.kind: op for op in other.operations}[kind]`: the last operation of the kind.
unfoldable pub last_of : Kind → List FinancialOperation → Option FinancialOperation
last_of kind [] = none
last_of kind (op ∷ ops) = elim (last_of kind ops) [
  | some later ↦ some later
  | none ↦ if kind_eq op.kind kind then some op else none
]

abbrev is_preparing : IntentState → Bool
is_preparing IntentState.preparing = true
is_preparing IntentState.awaiting_external_result = true
is_preparing _ = false

abbrev is_linked : IntentState → Bool
is_linked IntentState.linked = true
is_linked _ = false

-- The last two tests, on the subscription's operation.
unfoldable pub owns_subscription : Purchase → FinancialOperation → Text → Bool
owns_subscription other sub provider =
    if is_linked other.state && is_bound sub.state
    then is_text provider sub.bound_id
    else (is_preparing other.state && is_in_flight sub.state)
      && (is_none sub.bound_id && none_or (λ s. text_eq s provider) sub.candidate_id)

-- The tests on the other purchase, once it has both operations.
unfoldable pub owns_inventory :
    Purchase → Purchase → FinancialOperation → FinancialOperation → Text → Text → Bool
owns_inventory purchase other contract sub provider agreement_id =
    (other.held
      && (text_eq other.accepted.provider_origin purchase.accepted.provider_origin
          && (is_bound contract.state && is_text agreement_id contract.bound_id)))
    && owns_subscription other sub provider

abbrev pub owner_of :
    Purchase
    → Purchase
    → Text
    → Text
    → Option FinancialOperation
    → Option FinancialOperation
    → Option Purchase
owner_of purchase other provider agreement_id (some contract) (some sub) =
    if owns_inventory purchase other contract sub provider agreement_id then some other else none
owner_of purchase other provider agreement_id _ _ = none

-- The rows that the function reads next, or `none` where it returns None at once.
unfoldable pub inventory_owner :
    Db → Purchase → Text → Text → PurchaseIntent → Outcome (Option Purchase)
inventory_owner db purchase provider agreement_id row =
    if text_eq row.product_id purchase.accepted.selection.product_id
    then ok none
    else (snapshot db row >>= λ other. ok (
        owner_of purchase other provider agreement_id (last_of agreement other.operations)
          (last_of subscription other.operations)))

-- `other_inventory_purchase`
unfoldable pub other_inventory_purchase : Moment → Db → Purchase → ℕ → ℕ → Outcome (Option Purchase)
other_inventory_purchase m db purchase provider_id agreement_id = do
  lock_user m
  elim (agreement_purchase db purchase.user_id purchase.customer_id purchase.account_id
      (str agreement_id)) [
        | none ↦ ok none
        | some row ↦ inventory_owner db purchase (str provider_id) (str agreement_id) row
      ]

-- The tests on the customer's row.
unfoldable pub slot_fits : Text → Purchase → Customer → Bool
slot_fits origin purchase slot =
    ((slot.user_id == purchase.user_id)
      && text_eq slot.external_billing_account_id purchase.account_id)
    && (is_text origin slot.provider_origin && is_bound_customer slot.binding_state)

-- `customer_for_purchase`; `origin` is the configured provider origin.
unfoldable pub customer_for_purchase : Moment → Db → Text → Purchase → Outcome CustomerOpen
customer_for_purchase m db origin purchase = do
  slot ← lock_customer m db purchase.customer_id
  check (slot_fits origin purchase slot) billing_identity_unproven
  provider ← or_raise slot.provider_customer_id billing_identity_unproven
  op ← or_raise (customer_operation db slot.customer_id) billing_identity_unproven
  check (is_bound op.operation_state && is_text provider op.bound_external_object_id)
      billing_identity_unproven
  ok (shown slot op none false none)
