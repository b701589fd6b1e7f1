-- ===== src/Purchases/Run/Receipts.antt =====
-- The receipt of an operation over any sequence of transactions.
use payments_portal.Purchases.Escalate.{escalate_operation}
use payments_portal.Purchases.Run.BoundWorks.{bind_financial-keeps}
use payments_portal.Purchases.Changed.{changed_unsent_terms}
use payments_portal.Purchases.Run.Settled.{
  financial_pending-keeps, changed_unsent_terms-keeps, escalate_operation-keeps,
}
use payments_portal.Purchases.Recovery.Receipts.{
  record_receipt-Recorded, Recorded-work, receipt_fits-same,
}
use payments_portal.Purchases.Snapshot.{candidate_of}
use payments_portal.Purchases.Claim.{claim_financial}
use payments_portal.Purchases.Recovery.{record_receipt, financial_pending, receipt_fits}
use payments_portal.Base.Int.{ℤ, pos}
use payments_portal.Purchases.Run.{apply, run, claims, receives, escalates}
use payments_portal.Purchases.Contracts.{FinancialOperation, Purchase}
use payments_portal.Purchases.Run.{
  committed, committed_claim, committed_escalation, Transaction, ℤ, claim_financial,
  proves_not_sent, waits, changes_terms, changed_unsent_terms, binds, escalate_operation,
}
use payments_portal.Base.{
  ◌≡◌, ◌∙◌, ok, err, refl, ap, sym, subst, List, [], ◌∷◌, true, ℕ, Bool, str,
}
use payments_portal.Store.{Moment, Db, Outcome, recovery_work, text}
use payments_portal.Purchases.Recovery
use payments_portal.Purchases.Run.Works.{
  KeepsReceipts, KeepsReceipts-same, claim_financial-keeps, proven_not_sent-keeps,
  record_receipt-keeps,
}

committed-keeps :
    (db : Db) (result : Outcome Db)
    → ((after : Db) → result ≡ ok after → KeepsReceipts db after)
    → KeepsReceipts db (committed db result)
committed-keeps db (ok after) h = h after refl
committed-keeps db (err e) h = KeepsReceipts-same db db refl

committed_claim-keeps :
    (db : Db) (result : Outcome (FinancialOperation × Db))
    → ((shown : FinancialOperation) (after : Db)
        → result ≡ ok (shown, after)
        → KeepsReceipts db after)
    → KeepsReceipts db (committed_claim db result)
committed_claim-keeps db (ok (shown, after)) h = h shown after refl
committed_claim-keeps db (err e) h = KeepsReceipts-same db db refl

committed_escalation-keeps :
    (db : Db) (result : Outcome (Bool × Db))
    → ((escalated : Bool) (after : Db) → result ≡ ok (escalated, after) → KeepsReceipts db after)
    → KeepsReceipts db (committed_escalation db result)
committed_escalation-keeps db (ok (escalated, after)) h = h escalated after refl
committed_escalation-keeps db (err e) h = KeepsReceipts-same db db refl

apply-keeps : (t : Transaction) (db : Db) → KeepsReceipts db (apply t db)
unfolding apply
apply-keeps (claims m session purchase expected request) db =
    committed_claim-keeps db (claim_financial m session purchase expected request db)
      (λ shown after e. claim_financial-keeps m session purchase expected request db e)
apply-keeps (proves_not_sent m purchase expected) db =
    committed-keeps db (Recovery.proven_not_sent m purchase expected db)
      (λ after e. proven_not_sent-keeps m purchase expected db e)
apply-keeps (receives m purchase expected provider_id) db =
    committed-keeps db (record_receipt m purchase expected provider_id db)
      (λ after e. record_receipt-keeps m purchase expected provider_id db e)
apply-keeps (waits m purchase expected conflict facts) db =
    committed-keeps db (financial_pending m purchase expected conflict facts db)
      (λ after e. financial_pending-keeps m purchase expected conflict facts db e)
apply-keeps (changes_terms m purchase) db =
    committed-keeps db (changed_unsent_terms m purchase db)
      (λ after e. changed_unsent_terms-keeps m purchase db e)
apply-keeps (binds m m' purchase expected provider_id observation) db =
    bind_financial-keeps m m' purchase expected provider_id observation db
apply-keeps (escalates m instant purchase expected) db =
    committed_escalation-keeps db (escalate_operation m instant purchase expected db)
      (λ escalated after e. escalate_operation-keeps m instant purchase expected db e)

run-keeps : (ts : List Transaction) (db : Db) → KeepsReceipts db (run ts db)
unfolding run
run-keeps [] db k t h = h
run-keeps (u ∷ ts) db k t h = run-keeps ts (apply u db) k t (apply-keeps u db k t h)

-- Where `record_receipt` has recorded a receipt for an operation, and after any sequence of
-- transactions it records one for the same operation, by any caller, the second has the number of the
-- first, which still stood in the recovery item.
pub record_receipt_agrees :
    (m m' : Moment) (purchase purchase' : Purchase) (expected expected' : FinancialOperation)
    (first second : ℤ) (db : Db) (ts : List Transaction) {after after' : Db}
    → record_receipt m purchase expected first db ≡ ok after
    → expected'.id ≡ expected.id
    → record_receipt m' purchase' expected' second (run ts after) ≡ ok after'
    → (second ≡ first)
      × ((provider : ℕ) × (first ≡ pos provider)
          × (candidate_of (recovery_work (run ts after) expected.id) ≡ text (str provider)))
record_receipt_agrees m m' purchase purchase' expected expected' first second db ts {after} h same
      h' =
    let r = record_receipt-Recorded m purchase expected first db h in
    let r' = record_receipt-Recorded m' purchase' expected' second (run ts after) h' in
    let kept =
      run-keeps ts after expected.id (str r.provider)
        (ap candidate_of (Recorded-work expected first db r)) in
    let candidate : r'.work.candidate_id ≡ text (str r.provider) =
      ap candidate_of (sym r'.stored)
      ∙ ap (λ k. candidate_of (recovery_work (run ts after) k)) same
      ∙ kept in
    let fits : receipt_fits r'.provider (text (str r.provider)) ≡ true =
      subst (λ c. receipt_fits r'.provider c ≡ true) candidate r'.fits in
    (
      r'.is_number
          ∙ sym (ap (λ n. pos n) (receipt_fits-same r'.provider r.provider fits))
          ∙ sym r.is_number,
      (r.provider, r.is_number, kept),
    )
