-- ===== src/Purchases/Escalate/Advances.antt =====
-- One transaction of the batch: what it escalates, and that the operations evolve soundly.
use payments_portal.Purchases.Recovery.Advances.{review-operations, refenced-Evolves_review}
use payments_portal.Purchases.Locking.{with_operation-eq-ok}
use payments_portal.Purchases.Recovery.{refenced}
use payments_portal.Purchases.Evolution.{
  op_key, Advances, Advances-same, Advances-put, operations-get,
}
use payments_portal.Store.Tables.{IsKeyed, put}
use payments_portal.Purchases.Contracts.{FinancialOperation, Purchase}
use payments_portal.Base.{ℕ, Bool, ◌≡◌, ok, ◌⊎◌, false, inl, arith, ap, inr, refl}
use payments_portal.Store.{
  Moment, Db, PurchaseIntent, Operation, State, external_create_outcome_unknown,
}
use payments_portal.Purchases.Escalate.{
  escalate_rest, escalate_operation, Moment, ℕ, FinancialOperation, Purchase, Db, PurchaseIntent,
  Operation, external_create_outcome_unknown,
}

escalate_rest_cases :
    (m : Moment) (instant : ℕ) (expected : FinancialOperation) (db : Db) (row : PurchaseIntent)
    (op : Operation) {escalated : Bool} {after : Db}
    → escalate_rest m instant expected db row op ≡ ok (escalated, after)
    → (after ≡ db)
      ⊎ (after.operations ≡ put op_key (refenced m State.manual_review op) db.operations)
unfolding escalate_rest
escalate_rest_cases m instant expected db row op h =
    ground
      (arith, review-operations m row op (external_create_outcome_unknown op.operation_kind) db)

pub escalate_operation-Advances :
    (m : Moment) (instant : ℕ) (purchase : Purchase) (expected : FinancialOperation) (db : Db)
    {escalated : Bool} {after : Db}
    → IsKeyed op_key db.operations
    → escalate_operation m instant purchase expected db ≡ ok (escalated, after)
    → Advances false db after
unfolding escalate_operation
escalate_operation-Advances m instant purchase expected db {escalated} {after} keyed h =
    let (row, op, _, is_op, run) =
      with_operation-eq-ok m db purchase expected (escalate_rest m instant expected db) h in
    elim (escalate_rest_cases m instant expected db row op run) [
      | inl same ↦ Advances-same false db after keyed (ap (λ (d : Db). d.operations) same)
      | inr written ↦
          Advances-put false db after op (refenced m State.manual_review op) keyed
            (operations-get db purchase.id expected.id keyed is_op) written refl
            (refenced-Evolves_review m op)
    ]
