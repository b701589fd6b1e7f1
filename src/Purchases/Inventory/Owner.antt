-- ===== src/Purchases/Inventory/Owner.antt =====
-- Who is named as the owner of a provider's subscription.
use payments_portal.Customers.Scope.{is_text}
use payments_portal.Purchases.Snapshot.{snapshot}
use payments_portal.Purchases.Inventory.{
  owns_subscription, PurchaseIntent, IntentState, snapshot, last_of, agreement, subscription,
  owns_inventory, owner_of, inventory_owner, other_inventory_purchase, agreement_purchase, Moment,
  lock_user, is_text,
}
use payments_portal.Base.{
  Text, Option, ◌≡◌, ◌≢◌, true, some, Option-cases, ◌⊎◌, ok, ap, inl, text_eq→eq, arith, none, inr,
  refl, Bool-cases, ℕ, >>=-eq-ok, text_eq, str, find?-holds, subst, sym, text_eq_refl,
}
use payments_portal.Store.{
  Db, PurchaseIntent, IntentState, State, agreement, subscription, Moment, lock_user, is_in_flight,
}
use payments_portal.Purchases.Contracts.{Purchase, FinancialOperation}

-- Why a purchase owns the subscription: it is linked and bound to it, or its send is in flight, is
-- not bound, and no receipt names another identity.
abbrev pub OwnsBy : Purchase → FinancialOperation → Text → Type 0
OwnsBy other sub provider =
    ((other.state ≡ IntentState.linked)
      × (sub.state ≡ State.bound)
      × (sub.bound_id ≡ some provider))
    ⊎ ((is_in_flight sub.state ≡ true)
        × (sub.bound_id ≡ none)
        × ((sub.candidate_id ≡ none) ⊎ (sub.candidate_id ≡ some provider)))

pub record Owns (db : Db) (purchase other : Purchase) (provider agreement_id : Text) : Type 0 where
  pub row : PurchaseIntent
  pub same_user : row.user_id ≡ purchase.user_id
  pub same_customer : row.customer_id ≡ purchase.customer_id
  pub same_account : row.external_billing_account_id ≡ purchase.account_id
  pub other_product : row.product_id ≢ purchase.accepted.selection.product_id
  pub shown : snapshot db row ≡ ok other
  pub is_held : other.held ≡ true
  pub contract : FinancialOperation
  pub contract_bound : (contract.state ≡ State.bound) × (contract.bound_id ≡ some agreement_id)
  pub sub : FinancialOperation
  pub listed :
      (last_of agreement other.operations ≡ some contract)
      × (last_of subscription other.operations ≡ some sub)
  pub owns : OwnsBy other sub provider

pub is_text-eq : (t : Text) (o : Option Text) → is_text t o ≡ true → o ≡ some t
is_text-eq t none h = cc h
is_text-eq t (some s) h = ap (λ x. some x) (text_eq→eq s t h)

owns_subscription-by :
    (other : Purchase) (sub : FinancialOperation) (provider : Text)
    → owns_subscription other sub provider ≡ true
    → OwnsBy other sub provider
unfolding owns_subscription
owns_subscription-by other sub provider h = elim (Option-cases sub.candidate_id) [
  | inl none_yet ↦ ground (arith, is_text-eq provider sub.bound_id)
  | inr (c, there) ↦ ground (arith, is_text-eq provider sub.bound_id, text_eq→eq c provider)
]

owns_inventory-parts :
    (purchase other : Purchase) (contract sub : FinancialOperation) (provider agreement_id : Text)
    → owns_inventory purchase other contract sub provider agreement_id ≡ true
    → (other.held ≡ true)
      × ((contract.state ≡ State.bound) × (contract.bound_id ≡ some agreement_id))
      × OwnsBy other sub provider
unfolding owns_inventory
owns_inventory-parts purchase other contract sub provider agreement_id h =
    let by = owns_subscription-by other sub provider (ground arith) in
    let text : is_text agreement_id contract.bound_id ≡ true = ground arith in
    (ground arith, (ground arith, is_text-eq agreement_id contract.bound_id text), by)

owner_of-some :
    (purchase other found : Purchase) (provider agreement_id : Text)
    (contract sub : Option FinancialOperation)
    → owner_of purchase other provider agreement_id contract sub ≡ some found
    → (c s : FinancialOperation) × (contract ≡ some c)
      × (sub ≡ some s)
      × (owns_inventory purchase other c s provider agreement_id ≡ true)
      × (found ≡ other)
owner_of-some purchase other found provider agreement_id (some c) (some s) h =
    (c, s, refl, refl, ground arith, ground arith)
owner_of-some purchase other found provider agreement_id (some c) none h = cc h
owner_of-some purchase other found provider agreement_id none (some s) h = cc h
owner_of-some purchase other found provider agreement_id none none h = cc h

inventory_owner-Owns :
    (db : Db) (purchase other : Purchase) (provider agreement_id : Text) (row : PurchaseIntent)
    → agreement_purchase db purchase.user_id purchase.customer_id purchase.account_id agreement_id
      ≡ some row
    → inventory_owner db purchase provider agreement_id row ≡ ok (some other)
    → Owns db purchase other provider agreement_id
unfolding inventory_owner agreement_purchase
inventory_owner-Owns db purchase other provider agreement_id row found h =
    elim (Bool-cases (text_eq row.product_id purchase.accepted.selection.product_id)) [
      | inl same ↦ cc (rw (same, inventory_owner) at h)
      | inr different ↦
          let (shown, is_shown, h1) =
            >>=-eq-ok (snapshot db row) _ (rw (different, inventory_owner) at h) in
          let named : owner_of purchase shown provider agreement_id
                (last_of agreement shown.operations) (last_of subscription shown.operations)
              ≡ some other =
            ground (arith, h1) in
          let (c, s, is_c, is_s, owns, is_other) =
            owner_of-some purchase shown other provider agreement_id
              (last_of agreement shown.operations) (last_of subscription shown.operations) named in
          let (held, bound, by) =
            owns_inventory-parts purchase shown c s provider agreement_id owns in
          let matched = find?-holds _ db.intents found in
          subst (λ p. Owns db purchase p provider agreement_id) (sym is_other)
            (record {
              row = row;
              same_user = ground (arith, matched);
              same_customer = ground (arith, matched);
              same_account =
                  text_eq→eq row.external_billing_account_id purchase.account_id
                    (ground (arith, matched));
              other_product = λ e. cc (
                different,
                subst (λ t. text_eq row.product_id t ≡ true) e (text_eq_refl row.product_id),
              );
              shown = is_shown;
              is_held = held;
              contract = c;
              contract_bound = bound;
              sub = s;
              listed = (is_c, is_s);
              owns = by;
            })
    ]

-- A purchase that `other_inventory_purchase` names is another product's purchase of the same user,
-- customer and account, with its scope held and its agreement bound to the given one; it is linked
-- and bound to the given subscription, or its send is in flight and no receipt names another one.
pub other_inventory_purchase-Owns :
    (m : Moment) (db : Db) (purchase other : Purchase) (provider_id agreement_id : ℕ)
    → other_inventory_purchase m db purchase provider_id agreement_id ≡ ok (some other)
    → Owns db purchase other (str provider_id) (str agreement_id)
unfolding other_inventory_purchase
other_inventory_purchase-Owns m db purchase other provider_id agreement_id h =
    let query =
      agreement_purchase db purchase.user_id purchase.customer_id purchase.account_id
        (str agreement_id) in
    let (_, _, h1) = >>=-eq-ok (lock_user m) _ h in
    elim (Option-cases query) [
      | inl nobody ↦ cc (rw nobody at h1)
      | inr (row, found) ↦
          inventory_owner-Owns db purchase other (str provider_id) (str agreement_id) row found
            (rw found at h1)
    ]
