-- ===== src/Purchases/Claim/Advances.antt =====
-- How a claim changes the operations.
use payments_portal.Purchases.Claim.Fence.{claim_run, claim_rows-operations, claimed-columns}
use payments_portal.Purchases.Evolution.{
  op_key, IsSound, Evolves, operations-get, Advances, Advances-same, Advances-put,
}
use payments_portal.Store.Tables.{IsKeyed}
use payments_portal.Purchases.Claim.{
  claimed, FinancialOperation, keeps_claim, PurchaseIntent, claim_financial,
}
use payments_portal.Purchases.Contracts.{Purchase, FinancialOperation}
use payments_portal.Base.{ℕ, ◌≡◌, ◌∙◌, ok, false, arith, inl, inr, ap}
use payments_portal.Store.{Moment, Outcome, Db, Operation, RequestDocument, PurchaseIntent}

claimed-Evolves :
    (m : Moment) (purchase : Purchase) (expected : FinancialOperation) (request : RequestDocument)
    (row : PurchaseIntent) (op : Operation)
    → keeps_claim row op expected ≡ false
    → IsSound op
    → Evolves false op (claimed m purchase request op) × IsSound (claimed m purchase request op)
unfolding claimed keeps_claim
claimed-Evolves m purchase expected request row op h s = ground arith

-- Where operations are stored under their identities, over a claim that returns they stay so and
-- every sound operation evolves soundly, and none becomes open for a send.
pub claim_financial-Advances :
    (m : Moment) (session : Outcome ℕ) (purchase : Purchase) (expected : FinancialOperation)
    (request : RequestDocument) (db : Db) {shown : FinancialOperation} {after : Db}
    → IsKeyed op_key db.operations
    → claim_financial m session purchase expected request db ≡ ok (shown, after)
    → Advances false db after
claim_financial-Advances m session purchase expected request db {shown} {after} keyed h =
    let run = claim_run m session purchase expected request db h in
    elim run.outcome [
      | inl silent ↦ Advances-same false db after keyed (ap (λ (d : Db). d.operations) silent.1)
      | inr sent ↦
          Advances-put false db after run.op (claimed m purchase request run.op) keyed
            (operations-get db purchase.id expected.id keyed run.is_next)
            (ap (λ (d : Db). d.operations) sent.written
              ∙ claim_rows-operations m purchase request run.row run.op db)
            (claimed-columns m purchase request run.op).0
            (claimed-Evolves m purchase expected request run.row run.op sent.open_claim)
    ]
