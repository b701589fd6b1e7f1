-- ===== src/Purchases/Stale.antt =====
-- The fence: a caller whose snapshot is older than the last claim, proof, review or binding of an
-- operation can no longer change anything of it.
use payments_portal.Purchases.Bind.{
  bind_financial, bind_once, bind_rest, admit_binding, after_binding,
}
use payments_portal.Purchases.Snapshot.{operation_snapshot}
use payments_portal.Base.Int.{ℤ}
use payments_portal.Purchases.Claim.{claim_financial, keeps_claim, claim_rest}
use payments_portal.Purchases.Locking.{locked, next_operation, with_operation}
use payments_portal.Purchases.Contracts.{Purchase, FinancialOperation, purchase_pending}
use payments_portal.Base.{
  ℕ, ◌≡◌, refl, Bool, true, false, ok, err, Option, ◌≢◌, ◌>>=◌, opt_eq, arith, Bool-cases, inl,
  opt_eq→eq, inr, ◌∙◌, ap, check, ◌>>◌, ==_iff, none,
}
use payments_portal.Store.{
  Moment, Outcome, Db, Operation, operations, PurchaseIntent, RequestDocument, Failure,
  PreparedObservation, purchase_pending, purchase_not_found,
}
use payments_portal.Purchases.Recovery
use payments_portal.Purchases.Recovery.{
  not_sent_rest, keeps_send, provider_number, financial_pending, record_receipt, pending_rest,
  receipt_rest,
}

module _ (m : Moment) (purchase : Purchase) (expected : FinancialOperation) (db : Db)
    {row : PurchaseIntent} {op : Operation} (is_row : locked m db purchase ≡ ok row)
    (is_op : next_operation expected.id (operations db purchase.id) ≡ ok op) where
  pub with_operation-eq :
      {A : Type 0} (body : PurchaseIntent → Operation → Outcome A)
      → with_operation m db purchase expected body ≡ body row op
  with_operation-eq body = rw (is_row, ◌>>=◌) (rw (is_op, ◌>>=◌) refl)

module _ (m : Moment) (row : PurchaseIntent) (op : Operation) (expected : FinancialOperation)
    (db : Db) (stale : opt_eq op.send_fence expected.fence ≡ false) where
  keeps_claim-stale : keeps_claim row op expected ≡ true
  unfolding keeps_claim
  keeps_claim-stale = ground arith

  claim_rest-stale :
      (purchase : Purchase) (request : RequestDocument)
      → claim_rest m purchase expected request db row op
        ≡ ◌>>=◌ {B = FinancialOperation × Db}
            (operation_snapshot db op false)
            (λ shown. ok (shown, db))
  unfolding claim_rest
  claim_rest-stale purchase request = rw (keeps_claim-stale, claim_rest) refl

  not_sent_rest-stale : not_sent_rest m expected db row op ≡ ok db
  unfolding not_sent_rest keeps_send
  not_sent_rest-stale = ground arith

  pending_rest-stale :
      (conflict : Bool) (facts : Option Failure)
      → pending_rest m expected conflict facts db row op ≡ ok db
  unfolding pending_rest
  pending_rest-stale conflict facts = ground arith

  receipt_rest-stale :
      (provider : ℕ) → receipt_rest expected provider db row op ≡ err purchase_pending
  unfolding receipt_rest
  receipt_rest-stale provider = ground arith

  bind_rest-stale :
      (purchase : Purchase) (provider : ℕ) (observation : Option PreparedObservation)
      → bind_rest m purchase expected provider observation db row op ≡ err purchase_pending
  unfolding bind_rest admit_binding
  bind_rest-stale purchase provider observation = rw (stale, ◌>>=◌) refl

-- On an operation of a locked purchase whose fence is not the caller's: a claim by the owner shows
-- the operation and may not send, a no-send proof and a failure change nothing, and a receipt and
-- a binding with a valid number are refused as pending, with the tables as they were.
pub stale_fence_is_void :
    (m m' : Moment) (purchase : Purchase) (expected : FinancialOperation) (db : Db)
    (row : PurchaseIntent) (op : Operation) (request : RequestDocument) (conflict : Bool)
    (facts : Option Failure) (provider_id : ℤ) (provider : ℕ)
    (observation : Option PreparedObservation)
    → locked m db purchase ≡ ok row
    → next_operation expected.id (operations db purchase.id) ≡ ok op
    → op.send_fence ≢ expected.fence
    → provider_number provider_id ≡ ok provider
    → (claim_financial m (ok purchase.user_id) purchase expected request db
        ≡ ◌>>=◌ {B = FinancialOperation × Db}
            (operation_snapshot db op false)
            (λ shown. ok (shown, db)))
      × (Recovery.proven_not_sent m purchase expected db ≡ ok db)
      × (financial_pending m purchase expected conflict facts db ≡ ok db)
      × (record_receipt m purchase expected provider_id db ≡ err purchase_pending)
      × (bind_financial m m' purchase expected provider_id observation db
          ≡ (err purchase_pending, db))
unfolding claim_financial Recovery.proven_not_sent financial_pending record_receipt bind_financial
    bind_once
stale_fence_is_void m m' purchase expected db row op request conflict facts provider_id provider
      observation is_row is_op stale valid =
    elim (Bool-cases (opt_eq op.send_fence expected.fence)) [
      | inl same ↦ absurd (stale (opt_eq→eq op.send_fence expected.fence same))
      | inr other ↦ (
        ap
              (λ b.
                check b purchase_not_found
                >> with_operation m db purchase expected
                    (claim_rest m purchase expected request db))
              ((==_iff purchase.user_id purchase.user_id).1 refl)
            ∙ with_operation-eq m purchase expected db is_row is_op
                (claim_rest m purchase expected request db)
            ∙ claim_rest-stale m row op expected db other purchase request,
        with_operation-eq m purchase expected db is_row is_op (not_sent_rest m expected db)
            ∙ not_sent_rest-stale m row op expected db other,
        with_operation-eq m purchase expected db is_row is_op
              (pending_rest m expected conflict facts db)
            ∙ pending_rest-stale m row op expected db other conflict facts,
        rw (valid, record_receipt)
            (with_operation-eq m purchase expected db is_row is_op
                (receipt_rest expected provider db)
              ∙ receipt_rest-stale m row op expected db other provider),
        rw (valid, bind_financial)
            (ap (λ r. after_binding r (financial_pending m' purchase expected true none db) db)
              (with_operation-eq m purchase expected db is_row is_op
                  (bind_rest m purchase expected provider observation db)
                ∙ bind_rest-stale m row op expected db other purchase provider observation)),
      )
    ]
