-- ===== src/Purchases/Recovery/Settles.antt =====
-- What a failed or inconclusive read makes of an operation, as a table.
use payments_portal.Purchases.Stale.{with_operation-eq}
use payments_portal.Purchases.Locking.{locked, next_operation}
use payments_portal.Purchases.Recovery.Advances.{demoted_cases, settle-operations}
use payments_portal.Purchases.Contracts.{FinancialOperation, Purchase}
use payments_portal.Purchases.Evolution.{op_key, operations-get}
use payments_portal.Store.Tables.{get, IsKeyed, get-put_self}
use payments_portal.Base.{
  if◌then◌else◌, true, false, inl, ok, inr, opt_eq, subst, opt_eq_refl, Option-cases, ◌∙◌,
}
use payments_portal.Purchases.Recovery.{
  demoted, State, Operation, PurchaseIntent, is_due, Db, pending_rest, financial_pending,
  FinancialOperation, Purchase, Failure, financial_recovery_deadline, locked, refenced,
  recovery_work, operations, awaiting, settle,
}
use payments_portal.Store.{
  Moment, State, Operation, PurchaseIntent, Db, Failure, financial_recovery_deadline, recovery_work,
  operations,
}
use payments_portal.Base.{Bool, Option, ℕ, is_some, ◌≡◌, none, some, arith}

-- The operation's state after `financial_pending` under its own fence: by whether the read found a
-- conflict, the state before, whether the recovery deadline has passed, and whether the operation was
-- ever sent.
abbrev pub settled : Bool → State → Bool → Bool → State
settled true state due sent = State.manual_review
settled false State.proven_not_sent due sent = State.proven_not_sent
settled false State.bound due sent = State.bound
settled false State.manual_review due sent = State.manual_review
settled false _ due sent =
    if due then State.manual_review else if sent then State.unknown else State.pending

abbrev pub settled_of : Moment → Bool → Option ℕ → Operation → State
settled_of m conflict deadline op =
    settled conflict op.operation_state (is_due m deadline) (is_some op.unknown_since)

demoted-none :
    (m : Moment) (conflict : Bool) (deadline : Option ℕ) (row : PurchaseIntent) (op : Operation)
    (db : Db)
    → demoted m conflict deadline row op db ≡ none
    → op.operation_state ≡ settled_of m conflict deadline op
unfolding demoted
demoted-none m conflict deadline row op db h = ground arith

demoted-some :
    (m : Moment) (conflict : Bool) (deadline : Option ℕ) (row : PurchaseIntent) (op : Operation)
    (db : Db) {op' : Operation} {after : Db}
    → demoted m conflict deadline row op db ≡ some (op', after)
    → op'.operation_state ≡ settled_of m conflict deadline op
unfolding demoted
demoted-some m conflict deadline row op db h = ground arith

-- The operation that the tables hold after the branches is the one that they made of it.
demoted-stored :
    (m : Moment) (conflict : Bool) (deadline : Option ℕ) (row : PurchaseIntent) (op : Operation)
    (db : Db) {op' : Operation} {after : Db}
    → get op_key op.create_operation_id db.operations ≡ some op
    → demoted m conflict deadline row op db ≡ some (op', after)
    → get op_key op.create_operation_id after.operations ≡ some op'
demoted-stored m conflict deadline row op db {op'} {after} found h =
    elim (demoted_cases m conflict deadline row op db h) [
      | inl (is_op, written) ↦
          rw (written, is_op)
            (get-put_self op_key (refenced m State.manual_review op) db.operations {old = op} found)
      | inr (inl (_, _, _, is_op, written)) ↦
          rw (written, is_op) (get-put_self op_key (awaiting op) db.operations {old = op} found)
      | inr (inr (is_op, written)) ↦ rw (written, is_op) found
    ]

pending_rest-settles :
    (m : Moment) (expected : FinancialOperation) (conflict : Bool) (facts : Option Failure)
    (db : Db) (row : PurchaseIntent) (op : Operation)
    → get op_key op.create_operation_id db.operations ≡ some op
    → op.send_fence ≡ expected.fence
    → (after : Db) × (o : Operation) × (pending_rest m expected conflict facts db row op ≡ ok after)
      × (get op_key op.create_operation_id after.operations ≡ some o)
      × (o.operation_state
          ≡ settled_of m conflict
              (financial_recovery_deadline op (recovery_work db op.create_operation_id))
              op)
unfolding pending_rest
pending_rest-settles m expected conflict facts db row op found same =
    let work = recovery_work db op.create_operation_id in
    let deadline = financial_recovery_deadline op work in
    let fits : opt_eq op.send_fence expected.fence ≡ true =
      subst (λ f. opt_eq op.send_fence f ≡ true) same (opt_eq_refl op.send_fence) in
    elim (Option-cases (demoted m conflict deadline row op db)) [
      | inl early ↦ (
        db,
        op,
        ground (arith, fits, early),
        found,
        demoted-none m conflict deadline row op db early,
      )
      | inr ((op', db'), went) ↦ (
        settle m facts work op' db',
        op',
        ground (arith, fits, went),
        rw (settle-operations m facts work op' db')
            (demoted-stored m conflict deadline row op db found went),
        demoted-some m conflict deadline row op db went,
      )
    ]

-- On an operation of a locked purchase under the caller's fence, with operations stored under their
-- identities, `financial_pending` returns, and leaves the operation in the state that the table gives
-- for it: in review on a conflict or past its deadline, unless it is bound or proven unsent.
pub financial_pending_settles :
    (m : Moment) (purchase : Purchase) (expected : FinancialOperation) (conflict : Bool)
    (facts : Option Failure) (db : Db) {row : PurchaseIntent} {op : Operation}
    → IsKeyed op_key db.operations
    → locked m db purchase ≡ ok row
    → next_operation expected.id (operations db purchase.id) ≡ ok op
    → op.send_fence ≡ expected.fence
    → (after : Db) × (o : Operation) × (financial_pending m purchase expected conflict facts db
        ≡ ok after)
      × (get op_key op.create_operation_id after.operations ≡ some o)
      × (o.operation_state
          ≡ settled_of m conflict
              (financial_recovery_deadline op (recovery_work db op.create_operation_id))
              op)
unfolding financial_pending
financial_pending_settles m purchase expected conflict facts db {row} {op} keyed is_row is_op same =
    let (after, o, returns, stored, state) =
      pending_rest-settles m expected conflict facts db row op
        (operations-get db purchase.id expected.id keyed is_op) same in
    (
      after,
      o,
      with_operation-eq m purchase expected db is_row is_op
            (pending_rest m expected conflict facts db)
          ∙ returns,
      stored,
      state,
    )
