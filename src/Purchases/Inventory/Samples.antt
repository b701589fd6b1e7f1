-- ===== src/Purchases/Inventory/Samples.antt =====
-- The sample portal with a second purchase of the user, which is linked to a subscription.
use payments_portal.Customers.Open.{CustomerOpen}
use payments_portal.Purchases.Inventory.{
  Kind, other_inventory_purchase, customer_for_purchase, agreement_purchase, slot_fits, IntentState,
  Operation, binds_agreement, inventory_owner, last_of, owns_inventory, owns_subscription,
  CustomerOpen,
}
use payments_portal.Purchases.Samples.{
  program, the_evidence, the_intent, initial, moment, operation, the_purchase, seen,
}
use payments_portal.Purchases.Contracts.{Purchase}
use payments_portal.Base.{ℕ, none, ◌∷◌, [], Text, codes, some, true, ◌≡◌, ok, refl, false}
use payments_portal.Store.{
  AcceptedPurchase, PurchaseIntent, Db, Kind, IntentState, Operation, State,
}

abbrev other_evidence : AcceptedPurchase
other_evidence = record the_evidence {
  meaning = record {
    product_id = 81 ∷ [];
    revision_id = 4;
    expected_fingerprint = 70 ∷ [];
    documents = [];
  };
  selection = record {
    product_id = 81 ∷ [];
    tariff_id = 1;
    tariff_service_id = 2;
    period_id = 3;
    quantity = 1;
  };
}

abbrev other_intent : PurchaseIntent
other_intent = record the_intent {
  purchase_intent_id = 11;
  product_id = 81 ∷ [];
  state = IntentState.linked;
  accepted_snapshot = some other_evidence;
}

abbrev bound_operation : ℕ → Kind → Text → Operation
bound_operation id kind identity = record (operation id kind) {
  purchase_intent_id = some 11;
  operation_state = State.bound;
  bound_external_object_id = some identity;
}

abbrev pub inventory_db : Db
inventory_db = record initial {
  intents = the_intent ∷ other_intent ∷ [];
  holds = record { user_id = 1; product_id = 81 ∷ []; purchase_intent_id = 11 } ∷ [];
  operations =
      bound_operation 30 Kind.agreement (codes "60")
      ∷ bound_operation 31 Kind.subscription (codes "70")
      ∷ [];
}

abbrev pub other_purchase : Purchase
other_purchase = record {
  id = 11;
  user_id = 1;
  customer_id = 3;
  account_id = 9 ∷ [];
  state = IntentState.linked;
  accepted = other_evidence;
  created_at = 900;
  held = true;
  operations =
      record (seen 30 Kind.agreement) { state = State.bound; bound_id = some (codes "60") }
      ∷ record (seen 31 Kind.subscription) { state = State.bound; bound_id = some (codes "70") }
      ∷ [];
  reason = none;
}

pub named :
    other_inventory_purchase (moment 1000 40) inventory_db the_purchase 70 60
    ≡ ok (some other_purchase)
unfolding program other_inventory_purchase agreement_purchase binds_agreement inventory_owner
    last_of owns_inventory owns_subscription
named = refl

abbrev pub the_customer : CustomerOpen
the_customer = record {
  customer_id = 3;
  operation_id = 19;
  fence = none;
  outer_key = 19 ∷ [];
  provider_id = some (49 ∷ []);
  may_create = false;
  email = [];
  first_name = none;
  surname = none;
  patronymic = none;
  receipt_id = none;
}

pub usable : customer_for_purchase (moment 1000 40) initial (79 ∷ []) the_purchase ≡ ok the_customer
unfolding program customer_for_purchase slot_fits
usable = refl
