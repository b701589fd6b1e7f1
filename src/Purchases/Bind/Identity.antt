-- ===== src/Purchases/Bind/Identity.antt =====
-- What a successful binding proves of the operation and of the others.
use payments_portal.Purchases.Claim.Fence.{next_operation-id}
use payments_portal.Purchases.Bind.Advances.{bind_rest-operations}
use payments_portal.Store.{integrity_error, operations, is_open_send}
use payments_portal.Purchases.Evolution.{op_key, operations-get}
use payments_portal.Purchases.Locking.{with_operation-eq-ok}
use payments_portal.Store.Tables.{get, IsKeyed, get-key, put, get-put_self}
use payments_portal.Purchases.Recovery.{provider_number, financial_pending}
use payments_portal.Base.Int.{ℤ}
use payments_portal.Base.{
  ℕ, ◌≡◌, List, ok, true, Text, Option, arith, some, false, err, is_some, str, none, ◌≢◌,
  Result-cases, refl, ◌⊎◌, All-find?, inr, Option-cases, inl, ◌==◌, opt_eq→eq, any-eq-false,
  text_eq→eq, text_eq_refl, ==_iff, subst, ◌∙◌, sym,
}
use payments_portal.Purchases.Contracts.{FinancialOperation, Purchase}
use payments_portal.Purchases.Bind.{
  admit_binding, bound_to, breaks_binding, bind_once, bind_financial, Db, FinancialOperation,
  PurchaseIntent, ℕ, kind_eq, Operation, Purchase, after_binding, ℤ, provider_number, State,
  PreparedObservation, bind_rest, financial_pending, operations, put,
}
use payments_portal.Store.{
  Outcome, Moment, Kind, Db, PurchaseIntent, kind_eq, Operation, State, PreparedObservation,
  customer, agreement, subscription,
}

after_binding-ok :
    (binding conflict : Outcome Db) (db : Db) {after : Db}
    → after_binding binding conflict db ≡ (ok tt, after)
    → binding ≡ ok after
after_binding-ok (ok next) conflict db h = ground arith
after_binding-ok (err integrity_error) (ok recorded) db h = ground arith
after_binding-ok (err integrity_error) (err e) db h = ground arith
after_binding-ok (err e) conflict db h = ground arith

-- A binding that succeeds was made under the operation's fence, on an operation that was sent and
-- is not bound to another identity; it is bound to the provider's number from then on, and no other
-- operation of the kind is bound to it under the account.
pub record Binds (m : Moment) (expected : FinancialOperation) (provider_id : ℤ) (db after : Db)
    : Type 0 where
  pub provider : ℕ
  pub op : Operation
  pub new : Operation
  pub is_number : provider_number provider_id ≡ ok provider
  pub stored : get op_key expected.id db.operations ≡ some op
  pub was_current : op.send_fence ≡ expected.fence
  pub was_sent : (is_open_send op.operation_state ≡ false) × (is_some op.unknown_since ≡ true)
  pub was_free :
      (op.bound_external_object_id ≡ none) ⊎ (op.bound_external_object_id ≡ some (str provider))
  pub now_stored : get op_key expected.id after.operations ≡ some new
  pub is_bound_to :
      (new.operation_state ≡ State.bound) × (new.bound_external_object_id ≡ some (str provider))
  pub is_unique :
      (id : ℕ) (o : Operation) (account : Text)
      → get op_key id db.operations ≡ some o
      → id ≢ expected.id
      → o.operation_kind ≡ op.operation_kind
      → o.external_billing_account_id ≡ some account
      → op.external_billing_account_id ≡ some account
      → o.bound_external_object_id ≢ some (str provider)

admit_binding-facts :
    (row : PurchaseIntent) (op : Operation) (expected : FinancialOperation) (provider : ℕ) (db : Db)
    → admit_binding row op expected provider db ≡ ok tt
    → (op.send_fence ≡ expected.fence)
      × ((is_open_send op.operation_state ≡ false) × (is_some op.unknown_since ≡ true))
      × ((op.bound_external_object_id ≡ none) ⊎ (op.bound_external_object_id ≡ some (str provider)))
unfolding admit_binding
admit_binding-facts row op expected provider db h =
    elim (Option-cases op.bound_external_object_id) [
      | inl free ↦ ground (arith, opt_eq→eq op.send_fence expected.fence)
      | inr (t, bound) ↦
          ground (arith, text_eq→eq t (str provider), opt_eq→eq op.send_fence expected.fence)
    ]

bound_to-columns :
    (m : Moment) (provider : ℕ) (op : Operation)
    → let o = bound_to m provider op in
      (o.create_operation_id ≡ op.create_operation_id)
      × (o.operation_state ≡ State.bound)
      × (o.bound_external_object_id ≡ some (str provider))
      × (o.operation_kind ≡ op.operation_kind)
      × (o.external_billing_account_id ≡ op.external_billing_account_id)
unfolding bound_to
bound_to-columns m provider op = (refl, refl, refl, refl, refl)

kind_eq_refl : (k : Kind) → kind_eq k k ≡ true
kind_eq_refl customer = refl
kind_eq_refl agreement = refl
kind_eq_refl subscription = refl

breaks_binding_unique :
    (new : Operation) (ops : List Operation) (account identity : Text) (id : ℕ) (o : Operation)
    → breaks_binding new ops ≡ false
    → get op_key id ops ≡ some o
    → id ≢ new.create_operation_id
    → o.operation_kind ≡ new.operation_kind
    → o.external_billing_account_id ≡ some account
    → new.external_billing_account_id ≡ some account
    → new.bound_external_object_id ≡ some identity
    → o.bound_external_object_id ≢ some identity
unfolding breaks_binding
breaks_binding_unique new ops account identity id o h stored ne kind o_account account_e bound
      same =
    let spared = All-find? _ (λ x. op_key x == id) ops (any-eq-false _ ops h) stored in
    let keyed = get-key op_key id ops stored in
    ground (
      arith,
      spared,
      keyed,
      text_eq_refl account,
      text_eq_refl identity,
      kind_eq_refl new.operation_kind,
      ==_iff o.create_operation_id new.create_operation_id,
    )

bind_once-Binds :
    (m : Moment) (purchase : Purchase) (expected : FinancialOperation) (provider_id : ℤ)
    (provider : ℕ) (observation : Option PreparedObservation) (db : Db) {after : Db}
    → IsKeyed op_key db.operations
    → provider_number provider_id ≡ ok provider
    → bind_once m purchase expected provider observation db ≡ ok after
    → Binds m expected provider_id db after
unfolding bind_once
bind_once-Binds m purchase expected provider_id provider observation db {after} keyed valid h =
    let (row, op, _, is_op, run) =
      with_operation-eq-ok m db purchase expected
        (bind_rest m purchase expected provider observation db) h in
    let (admitted, free, written) =
      bind_rest-operations m purchase expected provider observation db row op run in
    let (current, sent, was_free) = admit_binding-facts row op expected provider db admitted in
    let new = bound_to m provider op in
    let (same, state, identity, kind, account) = bound_to-columns m provider op in
    let same_id = next_operation-id expected.id (operations db purchase.id) is_op in
    let at_id : get op_key expected.id db.operations ≡ some op =
      subst (λ k. get op_key k db.operations ≡ some op) same_id
        (operations-get db purchase.id expected.id keyed is_op) in
    record {
      provider = provider;
      op = op;
      new = new;
      is_number = valid;
      stored = at_id;
      was_current = current;
      was_sent = sent;
      was_free = was_free;
      now_stored = rw written (
          subst (λ k. get op_key k (put op_key new db.operations) ≡ some new) (same ∙ same_id)
            (get-put_self op_key new db.operations {old = op}
              (subst (λ k. get op_key k db.operations ≡ some op) (sym (same ∙ same_id)) at_id)));
      is_bound_to = (state, identity);
      is_unique = λ id o a stored ne k o_account op_account.
          breaks_binding_unique new db.operations a (str provider) id o free stored
            (λ e. ne (e ∙ same ∙ same_id)) (k ∙ sym kind) o_account (account ∙ op_account) identity;
    }

-- A binding that succeeds was made under the operation's fence, on an operation that had been sent
-- and was free or bound to the same identity; it leaves the operation bound to the provider's
-- number, and no other operation of the kind under the account was bound to that number.
pub bind_financial-Binds :
    (m m' : Moment) (purchase : Purchase) (expected : FinancialOperation) (provider_id : ℤ)
    (observation : Option PreparedObservation) (db : Db) {after : Db}
    → IsKeyed op_key db.operations
    → bind_financial m m' purchase expected provider_id observation db ≡ (ok tt, after)
    → Binds m expected provider_id db after
unfolding bind_financial
bind_financial-Binds m m' purchase expected provider_id observation db {after} keyed h =
    elim (Result-cases (provider_number provider_id)) [
      | inr (e, refused) ↦ absurd (ground arith)
      | inl (provider, valid) ↦
          bind_once-Binds m purchase expected provider_id provider observation db keyed valid (
            after_binding-ok (bind_once m purchase expected provider observation db)
              (financial_pending m' purchase expected true none db) db
              (rw (valid, bind_financial) at h))
    ]
