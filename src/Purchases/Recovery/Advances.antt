-- ===== src/Purchases/Recovery/Advances.antt =====
-- The transactions behind a send keep every operation's history, and act only under its own fence.
use payments_portal.Base.Int.{ℤ}
use payments_portal.Purchases.Locking.{next_operation, with_operation-eq-ok}
use payments_portal.Purchases.Contracts.{FinancialOperation, Purchase}
use payments_portal.Purchases.Evolution.{
  IsSound, op_key, Evolves, operations-get, Advances, Advances-same, Advances-put,
}
use payments_portal.Purchases.Recovery.{
  proven_not_sent, not_sent_rest, keeps_send, receipt_rest, review, settle, FinancialOperation,
  PurchaseIntent, next_operation, recovery_work, Work, ReasonCode, refenced, Failure, State,
  demoted, awaiting, financial_binding_conflict, external_create_outcome_unknown, pending_rest,
  financial_pending, financial_recovery_deadline, record_receipt, ℤ, provider_number, open_case,
}
use payments_portal.Store.Tables.{put, IsKeyed}
use payments_portal.Base.{
  none, some, ℕ, ◌≡◌, ◌⊎◌, inl, inr, refl, ok, Option, arith, false, some, Bool, Bool-cases, opt_eq,
  Option-cases, ap, >>=-eq-ok, ◌∙◌, true,
}
use payments_portal.Store.{
  Moment, Db, Operation, operations, PurchaseIntent, recovery_work, Work, ReasonCode, Failure,
  State, financial_binding_conflict, external_create_outcome_unknown, financial_recovery_deadline,
  open_case, is_bound, is_not_sent, is_reviewed,
}

not_sent_rest_touches :
    (m : Moment) (expected : FinancialOperation) (db : Db) (row : PurchaseIntent) (op : Operation)
    {after : Db}
    → not_sent_rest m expected db row op ≡ ok after
    → (after ≡ db)
      ⊎ ((keeps_send row op expected (recovery_work db op.create_operation_id) ≡ false)
          × (after.operations ≡ put op_key (refenced m State.proven_not_sent op) db.operations))
unfolding not_sent_rest
not_sent_rest_touches m expected db row op h = ground arith

refenced-Evolves_not_sent :
    (m : Moment) (row : PurchaseIntent) (op : Operation) (expected : FinancialOperation)
    (work : Option Work)
    → keeps_send row op expected work ≡ false
    → IsSound op
    → Evolves true op (refenced m State.proven_not_sent op)
      × IsSound (refenced m State.proven_not_sent op)
unfolding keeps_send
refenced-Evolves_not_sent m row op expected work h s = ground arith

-- Where operations are stored under their identities, over a `proven_not_sent` that returns they
-- stay so and every sound operation evolves soundly: it keeps its bound identity and the history
-- of its first send.
pub proven_not_sent-Advances :
    (m : Moment) (purchase : Purchase) (expected : FinancialOperation) (db : Db) {after : Db}
    → IsKeyed op_key db.operations
    → proven_not_sent m purchase expected db ≡ ok after
    → Advances true db after
unfolding proven_not_sent
proven_not_sent-Advances m purchase expected db {after} keyed h =
    let (row, op, _, is_op, run) =
      with_operation-eq-ok m db purchase expected (not_sent_rest m expected db) h in
    elim (not_sent_rest_touches m expected db row op run) [
      | inl same ↦ Advances-same true db after keyed (ap (λ (d : Db). d.operations) same)
      | inr (sent, written) ↦
          Advances-put true db after op (refenced m State.proven_not_sent op) keyed
            (operations-get db purchase.id expected.id keyed is_op) written refl
            (refenced-Evolves_not_sent m row op expected _ sent)
    ]

receipt_rest-operations :
    (expected : FinancialOperation) (provider : ℕ) (db : Db) (row : PurchaseIntent) (op : Operation)
    {after : Db}
    → receipt_rest expected provider db row op ≡ ok after
    → after.operations ≡ db.operations
unfolding receipt_rest
receipt_rest-operations expected provider db row op h = ground arith

pub record_receipt-Advances :
    (m : Moment) (purchase : Purchase) (expected : FinancialOperation) (provider_id : ℤ) (db : Db)
    {after : Db}
    → IsKeyed op_key db.operations
    → record_receipt m purchase expected provider_id db ≡ ok after
    → Advances false db after
unfolding record_receipt
record_receipt-Advances m purchase expected provider_id db {after} keyed h =
    let (provider, _, h1) = >>=-eq-ok (provider_number provider_id) _ h in
    let (row, op, _, is_op, run) =
      with_operation-eq-ok m db purchase expected (receipt_rest expected provider db) h1 in
    Advances-same false db after keyed (receipt_rest-operations expected provider db row op run)

pub review-operations :
    (m : Moment) (row : PurchaseIntent) (op : Operation) (reason : ReasonCode) (db : Db)
    → (review m row op reason db).operations
      ≡ put op_key (refenced m State.manual_review op) db.operations
unfolding review open_case
review-operations m row op reason db = ground arith

pub refenced-Evolves_review :
    (m : Moment) (op : Operation)
    → IsSound op
    → Evolves false op (refenced m State.manual_review op)
      × IsSound (refenced m State.manual_review op)
refenced-Evolves_review m op s = ground arith

pub settle-operations :
    (m : Moment) (facts : Option Failure) (work : Option Work) (op : Operation) (db : Db)
    → (settle m facts work op db).operations ≡ db.operations
unfolding settle
settle-operations m facts none op db = refl
settle-operations m facts (some work) op db = refl

awaiting-Evolves :
    (op : Operation)
    → is_bound op.operation_state ≡ false
    → is_not_sent op.operation_state ≡ false
    → is_reviewed op.operation_state ≡ false
    → IsSound op
    → Evolves false op (awaiting op) × IsSound (awaiting op)
awaiting-Evolves op b n r s = ground arith

-- The branches of `financial_pending`: the operation goes to review, waits, or stays.
pub demoted_cases :
    (m : Moment) (conflict : Bool) (deadline : Option ℕ) (row : PurchaseIntent) (op : Operation)
    (db : Db) {op' : Operation} {after : Db}
    → demoted m conflict deadline row op db ≡ some (op', after)
    → (op' ≡ refenced m State.manual_review op)
        × (after.operations ≡ put op_key (refenced m State.manual_review op) db.operations)
      ⊎ ((is_bound op.operation_state ≡ false)
          × (is_not_sent op.operation_state ≡ false)
          × (is_reviewed op.operation_state ≡ false)
          × (op' ≡ awaiting op)
          × (after.operations ≡ put op_key (awaiting op) db.operations))
      ⊎ (op' ≡ op) × (after.operations ≡ db.operations)
unfolding demoted
demoted_cases m conflict deadline row op db {op'} {after} h = ground (
  arith,
  review-operations m row op financial_binding_conflict db,
  review-operations m row op (external_create_outcome_unknown op.operation_kind) db,
)

pending_rest-Advances :
    (m : Moment) (purchase : Purchase) (expected : FinancialOperation) (conflict : Bool)
    (facts : Option Failure) (db : Db) (row : PurchaseIntent) (op : Operation) {after : Db}
    → IsKeyed op_key db.operations
    → next_operation expected.id (operations db purchase.id) ≡ ok op
    → pending_rest m expected conflict facts db row op ≡ ok after
    → Advances false db after
unfolding pending_rest
pending_rest-Advances m purchase expected conflict facts db row op {after} keyed is_op h =
    let work = recovery_work db op.create_operation_id in
    let deadline = financial_recovery_deadline op work in
    let found = operations-get db purchase.id expected.id keyed is_op in
    elim (Bool-cases (opt_eq op.send_fence expected.fence)) [
      | inr stale ↦ Advances-same false db after keyed (ground arith)
      | inl current ↦ elim (Option-cases (demoted m conflict deadline row op db)) [
        | inl early ↦ Advances-same false db after keyed (ground arith)
        | inr ((op', db'), went) ↦
            let settled : after ≡ settle m facts work op' db' = ground arith in
            let rows =
              ap (λ (d : Db). d.operations) settled ∙ settle-operations m facts work op' db' in
            elim (demoted_cases m conflict deadline row op db went) [
              | inl (_, written) ↦
                  Advances-put false db after op (refenced m State.manual_review op) keyed found
                    (rows ∙ written) refl (refenced-Evolves_review m op)
              | inr (inl (b, n, r, _, written)) ↦
                  Advances-put false db after op (awaiting op) keyed found (rows ∙ written) refl
                    (awaiting-Evolves op b n r)
              | inr (inr (_, written)) ↦ Advances-same false db after keyed (rows ∙ written)
            ]
      ]
    ]

-- Where operations are stored under their identities, over a `financial_pending` that returns they
-- stay so and every sound operation evolves soundly, and none becomes open for a send.
pub financial_pending-Advances :
    (m : Moment) (purchase : Purchase) (expected : FinancialOperation) (conflict : Bool)
    (facts : Option Failure) (db : Db) {after : Db}
    → IsKeyed op_key db.operations
    → financial_pending m purchase expected conflict facts db ≡ ok after
    → Advances false db after
unfolding financial_pending
financial_pending-Advances m purchase expected conflict facts db keyed h =
    let (row, op, _, is_op, run) =
      with_operation-eq-ok m db purchase expected (pending_rest m expected conflict facts db) h in
    pending_rest-Advances m purchase expected conflict facts db row op keyed is_op run
