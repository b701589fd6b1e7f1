-- ===== src/Customers/Steps/Keeps.antt =====
-- What no transaction takes back: the slot's owner and keys, its receipt and its provider identity.
use payments_portal.Customers.Steps.Claims.{same_receipt}
use payments_portal.Customers.Send.{with_receipt}
use payments_portal.Customers.Ends.{outcome_unknown}
use payments_portal.Purchases.Snapshot.{has_schema}
use payments_portal.Customers.Run.{CustomerTransaction}
use payments_portal.Customers.Read.{bound_create}
use payments_portal.Store.{Moment, is_possible_send, Operation}
use payments_portal.Customers.Open.{
  is_customer_number, receipt_id, CustomerOpen, receipt_number, customer_receipt_schema,
}
use payments_portal.Base.{
  ℕ, ok, inr, Option, ◌∙◌, ◌≡◌, none, Text, ◌<◌, some, ◌^◌, ◌⊎◌, str, arith, Bool-cases, subst,
  refl, true, text_eq, inl, sym, length-str_pos, none_or, ◌&&◌, all-str, ap, is_none, length-str,
  text_eq→eq, int-str, text_eq_refl,
}
use payments_portal.Customers.Slot.{Create}
use payments_portal.Customers.Steps.{
  Step, receipt_id, CustomerOpen, TakesReceipt, Moment, bound_create, CustomerTransaction, finished,
  ReadsIdentity, rests, with_receipt, identified, is_possible_send, sends, sent, takes_receipt,
  map_work, notes_failure, unleased, noted, takes_back, released, ends, refutes, refuted,
  goes_to_review, reviewed, stays_unknown, still_unknown, takes_identity,
}

-- A provider's number is read back from its text.
pub is_customer_number-str : (n : ℕ) → 0 < n → n < 10 ^ 20 → is_customer_number (str n) ≡ true
unfolding is_customer_number
is_customer_number-str n positive small =
    ground
      (arith, length-str_pos n, all-str n, length-str n 19 small, int-str n, text_eq_refl (str n))

pub receipt_id-with_receipt :
    (n : ℕ) (op : Operation)
    → 0 < n
    → n < 10 ^ 20
    → receipt_id (with_receipt n op) ≡ ok (some (str n))
unfolding receipt_id receipt_number has_schema customer_receipt_schema text_eq
receipt_id-with_receipt n op positive small =
    ground (arith, is_customer_number-str n positive small)

-- From one version of a slot to a later one.
pub record Keeps (s s' : Create) : Type 0 where
  pub same_user : s'.customer.user_id ≡ s.customer.user_id
  pub same_account :
      s'.customer.external_billing_account_id ≡ s.customer.external_billing_account_id
  pub same_origin : s'.customer.provider_origin ≡ s.customer.provider_origin
  pub same_key : s'.customer.billing_customer_key ≡ s.customer.billing_customer_key
  pub same_operation : s'.operation.create_operation_id ≡ s.operation.create_operation_id
  pub same_correlation : s'.operation.request_correlation_key ≡ s.operation.request_correlation_key
  pub keeps_identity :
      (s.customer.provider_customer_id ≡ none)
      ⊎ (s'.customer.provider_customer_id ≡ s.customer.provider_customer_id)
  pub keeps_receipt :
      (t : Text) → receipt_id s.operation ≡ ok (some t) → receipt_id s'.operation ≡ ok (some t)

pub Keeps-refl : (s : Create) → Keeps s s
Keeps-refl s = record {
  same_user = refl;
  same_account = refl;
  same_origin = refl;
  same_key = refl;
  same_operation = refl;
  same_correlation = refl;
  keeps_identity = inr refl;
  keeps_receipt = λ t h. h;
}

keeps_identity_trans :
    (a b c : Option Text) → (a ≡ none) ⊎ (b ≡ a) → (b ≡ none) ⊎ (c ≡ b) → (a ≡ none) ⊎ (c ≡ a)
keeps_identity_trans a b c h g = ground (arith, h, g)

pub Keeps-trans : (s r q : Create) → Keeps s r → Keeps r q → Keeps s q
Keeps-trans s r q h g = record {
  same_user = g.same_user ∙ h.same_user;
  same_account = g.same_account ∙ h.same_account;
  same_origin = g.same_origin ∙ h.same_origin;
  same_key = g.same_key ∙ h.same_key;
  same_operation = g.same_operation ∙ h.same_operation;
  same_correlation = g.same_correlation ∙ h.same_correlation;
  keeps_identity =
      keeps_identity_trans s.customer.provider_customer_id r.customer.provider_customer_id
        q.customer.provider_customer_id h.keeps_identity g.keeps_identity;
  keeps_receipt = λ t e. g.keeps_receipt t (h.keeps_receipt t e);
}

-- A second receipt has the number of the first.
received-keeps_receipt :
    (expected : CustomerOpen) (n : ℕ) (s : Create)
    → TakesReceipt expected n s
    → (t : Text) → receipt_id s.operation ≡ ok (some t)
    → receipt_id (with_receipt n s.operation) ≡ ok (some t)
received-keeps_receipt expected n s takes t h =
    let same : takes.previous ≡ some t =
      same_receipt takes.previous (some t) (sym takes.earlier ∙ h) in
    let agrees : none_or (λ x. text_eq x (str n)) (some t) ≡ true =
      subst (λ o. none_or (λ x. text_eq x (str n)) o ≡ true) same takes.agrees in
    receipt_id-with_receipt n s.operation takes.in_range.0 takes.in_range.1
    ∙ ap (λ x. ok (some x)) (sym (text_eq→eq t (str n) agrees))

-- A step that leaves the identity, the keys and the hint as they are.
quiet-Keeps :
    (s s' : Create)
    → s'.customer.user_id ≡ s.customer.user_id
    → s'.customer.external_billing_account_id ≡ s.customer.external_billing_account_id
    → s'.customer.provider_origin ≡ s.customer.provider_origin
    → s'.customer.billing_customer_key ≡ s.customer.billing_customer_key
    → s'.operation.create_operation_id ≡ s.operation.create_operation_id
    → s'.operation.request_correlation_key ≡ s.operation.request_correlation_key
    → (s.customer.provider_customer_id ≡ none)
      ⊎ (s'.customer.provider_customer_id ≡ s.customer.provider_customer_id)
    → receipt_id s'.operation ≡ receipt_id s.operation
    → Keeps s s'
quiet-Keeps s s' user account origin key operation correlation identity receipt = record {
  same_user = user;
  same_account = account;
  same_origin = origin;
  same_key = key;
  same_operation = operation;
  same_correlation = correlation;
  keeps_identity = identity;
  keeps_receipt = λ t h. receipt ∙ h;
}

finished-Keeps : (m : Moment) (fence : Option ℕ) (s : Create) → Keeps s (finished m fence s)
unfolding receipt_id
finished-Keeps m fence s =
    elim (Bool-cases
      (is_possible_send s.operation.operation_state && is_none s.customer.provider_customer_id)) [
        | inl sent ↦ rw sent (
            quiet-Keeps s
              (record s {
                operation = outcome_unknown m s.operation;
                work = map_work (unleased fence) s.work;
              })
              refl refl refl refl refl refl (inr refl) refl)
        | inr other ↦ rw other (
            quiet-Keeps s (record s { work = map_work (unleased fence) s.work }) refl refl refl refl
              refl refl (inr refl) refl)
      ]

identified-Keeps :
    (m : Moment) (expected : CustomerOpen) (provider : Text) (outer_key : Option Text) (s : Create)
    → ReadsIdentity expected provider outer_key s
    → Keeps s (identified m provider s)
unfolding receipt_id bound_create
identified-Keeps m expected provider outer_key s r =
    quiet-Keeps s (identified m provider s) refl refl refl refl refl refl
      (elim r.free [ inl nothing ↦ inl nothing | inr same ↦ inr (sym same) ]) refl

pub step-Keeps : {t : CustomerTransaction} {s s' : Create} → Step t s s' → Keeps s s'
unfolding receipt_id
step-Keeps {t} {s} {s'} (rests e) = subst (Keeps s) (sym e) (Keeps-refl s)
step-Keeps {t} {s} {s'} (sends m cfg session expected _ _ e) =
    subst (Keeps s) (sym e)
      (quiet-Keeps s (sent m cfg s) refl refl refl refl refl refl (inr refl) refl)
step-Keeps {t} {s} {s'} (takes_receipt m expected n _ takes e) = subst (Keeps s) (sym e) (record {
  same_user = refl;
  same_account = refl;
  same_origin = refl;
  same_key = refl;
  same_operation = refl;
  same_correlation = refl;
  keeps_identity = inr refl;
  keeps_receipt = received-keeps_receipt expected n s takes;
})
step-Keeps {t} {s} {s'} (notes_failure m http_status lbx_code reason e) = subst (Keeps s) (sym e) (
    quiet-Keeps s (noted m http_status lbx_code reason s) refl refl refl refl refl refl (inr refl)
      refl)
step-Keeps {t} {s} {s'} (takes_back m expected _ _ e) =
    subst (Keeps s) (sym e)
      (quiet-Keeps s (released m s) refl refl refl refl refl refl (inr refl) refl)
step-Keeps {t} {s} {s'} (ends m expected _ _ e) =
    subst (Keeps s) (sym e) (finished-Keeps m expected.fence s)
step-Keeps {t} {s} {s'} (refutes m e) =
    subst (Keeps s) (sym e)
      (quiet-Keeps s (refuted m s) refl refl refl refl refl refl (inr refl) refl)
step-Keeps {t} {s} {s'} (goes_to_review e) =
    subst (Keeps s) (sym e)
      (quiet-Keeps s (reviewed s) refl refl refl refl refl refl (inr refl) refl)
step-Keeps {t} {s} {s'} (stays_unknown _ e) =
    subst (Keeps s) (sym e)
      (quiet-Keeps s (still_unknown s) refl refl refl refl refl refl (inr refl) refl)
step-Keeps {t} {s} {s'} (takes_identity m again expected provider outer_key _ r e) =
    subst (Keeps s) (sym e) (identified-Keeps m expected provider outer_key s r)
