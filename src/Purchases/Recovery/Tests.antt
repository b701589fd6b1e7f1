-- ===== src/Purchases/Recovery/Tests.antt =====
-- Receipts and failed reads of the claimed sample agreement.
use payments_portal.Purchases.Evolution.{op_key}
use payments_portal.Store.Tables.{get}
use payments_portal.Base.{◌≡◌, false, err, none, refl, ok, some}
use payments_portal.Purchases.Recovery.Settles.{settled_of, financial_pending_settles}
use payments_portal.Base.Int.{pos}
use payments_portal.Purchases.Run.{committed}
use payments_portal.Purchases.Samples.{program, moment, the_purchase, the_intent}
use payments_portal.Purchases.Samples.Runs.{
  claimed_db, claimed_seen, claimed_agreement, claimed_db-IsKeyed,
}
use payments_portal.Store.{
  Db, Operation, financial_recovery_deadline, purchase_review_required, recovery_work, State,
  IntentState,
}
use payments_portal.Purchases.Recovery.{
  record_receipt, financial_pending, Db, pos, Operation, false, financial_recovery_deadline,
  purchase_review_required, recovery_work, State, IntentState,
}

abbrev once : Db
once =
    committed claimed_db
      (record_receipt (moment 1006 51) the_purchase claimed_seen (pos 77) claimed_db)

-- Another number is refused.
record_receipt-second :
    record_receipt (moment 1007 52) the_purchase claimed_seen (pos 78) once
    ≡ err purchase_review_required
unfolding program
record_receipt-second = refl

-- Past the deadline the claimed agreement goes to review.
financial_pending_settles_example :
    (after : Db) × (o : Operation) × (financial_pending
        (moment 9000 60)
        the_purchase
        claimed_seen
        false
        none
        claimed_db
      ≡ ok after)
    × (get op_key 20 after.operations ≡ some o)
    × (o.operation_state
        ≡ settled_of
            (moment 9000 60)
            false
            (financial_recovery_deadline claimed_agreement (recovery_work claimed_db 20))
            claimed_agreement)
unfolding program
financial_pending_settles_example =
    financial_pending_settles (moment 9000 60) the_purchase claimed_seen false none claimed_db
      {row = record the_intent { state = IntentState.preparing; state_updated_at = 1000 }}
      {op = claimed_agreement} claimed_db-IsKeyed refl refl refl

settled-overdue :
    settled_of
      (moment 9000 60)
      false
      (financial_recovery_deadline claimed_agreement (recovery_work claimed_db 20))
      claimed_agreement
    ≡ State.manual_review
unfolding program
settled-overdue = refl
