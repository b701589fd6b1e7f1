-- ===== src/Purchases/Inventory/Usable.antt =====
-- Which provider customer a purchase may use.
use payments_portal.Customers.Scope.{is_text}
use payments_portal.Customers.Open.{CustomerOpen}
use payments_portal.Purchases.Inventory.Owner.{is_text-eq}
use payments_portal.Store.Tables.{get}
use payments_portal.Purchases.Inventory.{
  customer_for_purchase, Moment, lock_customer, customer_operation, Binding,
  billing_identity_unproven, slot_fits, Outcome, CustomerOpen, is_text,
}
use payments_portal.Base.{
  Text, ◌≡◌, true, some, ok, ap, text_eq→eq, arith, refl, ℕ, >>=-eq-ok, text_eq, check, subst, ◌&&◌,
  or_raise, raise_if, err, or_raise-eq-ok, is_some, ◌∙◌, sym,
}
use payments_portal.Store.{
  Db, State, Customer, Moment, lock_customer, Operation, customer_operation, Binding,
  billing_identity_unproven, Outcome, billing_busy, no_result_found, is_bound,
}
use payments_portal.Purchases.Contracts.{Purchase}

-- A customer that a purchase may use.
pub record IsUsable (db : Db) (origin : Text) (purchase : Purchase) (shown : CustomerOpen)
    : Type 0 where
  pub slot : Customer
  pub op : Operation
  pub stored : get (λ c. c.customer_id) purchase.customer_id db.customers ≡ some slot
  pub creates : customer_operation db slot.customer_id ≡ some op
  pub same_user : slot.user_id ≡ purchase.user_id
  pub same_account : slot.external_billing_account_id ≡ purchase.account_id
  pub same_origin : slot.provider_origin ≡ some origin
  pub both_bound : (slot.binding_state ≡ Binding.bound) × (op.operation_state ≡ State.bound)
  pub one_identity :
      (is_some shown.provider_id ≡ true)
      × (slot.provider_customer_id ≡ shown.provider_id)
      × (op.bound_external_object_id ≡ shown.provider_id)
  pub fenced : shown.fence ≡ op.send_fence

slot_fits-parts :
    (origin : Text) (purchase : Purchase) (slot : Customer)
    → slot_fits origin purchase slot ≡ true
    → (slot.user_id ≡ purchase.user_id)
      × (slot.external_billing_account_id ≡ purchase.account_id)
      × (slot.provider_origin ≡ some origin)
      × (slot.binding_state ≡ Binding.bound)
unfolding slot_fits
slot_fits-parts origin purchase slot h =
    let from : is_text origin slot.provider_origin ≡ true = ground arith in
    let account : text_eq slot.external_billing_account_id purchase.account_id ≡ true =
      ground arith in
    (
      ground arith,
      text_eq→eq slot.external_billing_account_id purchase.account_id account,
      is_text-eq origin slot.provider_origin from,
      ground arith,
    )

lock_customer-get :
    (m : Moment) (db : Db) (customer_id : ℕ) {slot : Customer}
    → lock_customer m db customer_id ≡ ok slot
    → get (λ c. c.customer_id) customer_id db.customers ≡ some slot
unfolding lock_customer
lock_customer-get m db customer_id h =
    let (_, _, h1) = >>=-eq-ok (raise_if m.customer_busy billing_busy) _ h in
    or_raise-eq-ok (get (λ c. c.customer_id) customer_id db.customers) no_result_found h1

opened-injective : {a b : CustomerOpen} → ◌≡◌ {A = Outcome CustomerOpen} (ok a) (ok b) → a ≡ b
opened-injective {a} h = ap (λ r. elim r [ ok x ↦ x | err e ↦ a ]) h

-- A customer that `customer_for_purchase` gives is the purchase's, of its user, account and provider
-- origin, and it and its create operation are bound to one identity.
pub customer_for_purchase-IsUsable :
    (m : Moment) (db : Db) (origin : Text) (purchase : Purchase) {shown : CustomerOpen}
    → customer_for_purchase m db origin purchase ≡ ok shown
    → IsUsable db origin purchase shown
unfolding customer_for_purchase
customer_for_purchase-IsUsable m db origin purchase {shown} h =
    let (slot, is_slot, h1) = >>=-eq-ok (lock_customer m db purchase.customer_id) _ h in
    let (_, fits, h2) =
      >>=-eq-ok (check (slot_fits origin purchase slot) billing_identity_unproven) _ h1 in
    let (provider, is_provider, h3) =
      >>=-eq-ok (or_raise slot.provider_customer_id billing_identity_unproven) _ h2 in
    let (op, is_op, h4) =
      >>=-eq-ok (or_raise (customer_operation db slot.customer_id) billing_identity_unproven) _
        h3 in
    let (_, same, h5) =
      >>=-eq-ok
        (check (is_bound op.operation_state && is_text provider op.bound_external_object_id)
          billing_identity_unproven)
        _ h4 in
    let (user, account, from, state) =
      slot_fits-parts origin purchase slot (ground (arith, fits)) in
    let bound : op.operation_state ≡ State.bound = ground (arith, same) in
    let identity : is_text provider op.bound_external_object_id ≡ true = ground (arith, same) in
    let identified =
      or_raise-eq-ok slot.provider_customer_id billing_identity_unproven is_provider in
    subst (IsUsable db origin purchase) (opened-injective h5) (record {
      slot = slot;
      op = op;
      stored = lock_customer-get m db purchase.customer_id is_slot;
      creates =
          or_raise-eq-ok (customer_operation db slot.customer_id) billing_identity_unproven is_op;
      same_user = user;
      same_account = account;
      same_origin = from;
      both_bound = (state, bound);
      one_identity = (
        ap is_some identified,
        refl,
        is_text-eq provider op.bound_external_object_id identity ∙ sym identified,
      );
      fenced = refl;
    })
