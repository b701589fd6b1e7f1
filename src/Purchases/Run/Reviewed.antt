-- ===== src/Purchases/Run/Reviewed.antt =====
-- How many operations the escalations of a run send to review.
use payments_portal.Purchases.Claim.Fence.{next_operation-id}
use payments_portal.Purchases.Recovery.Advances.{review-operations}
use payments_portal.Purchases.Recovery.{refenced}
use payments_portal.Purchases.Locking.{with_operation-eq-ok}
use payments_portal.Purchases.Escalate.{escalate_rest, escalate_operation}
use payments_portal.Base.{
  ◌≡◌, ◌⊎◌, ◌∙◌, ok, refl, Option, none, some, Bool, true, false, List, [], ◌∷◌, ◌++◌, ◌+◌, ◌&&◌,
  ap, sym, arith, inl, inr, subst, if◌then◌else◌, ℕ,
}
use payments_portal.Store.{
  Moment, Db, Operation, State, is_in_flight, is_reviewed, PurchaseIntent,
  external_create_outcome_unknown, operations,
}
use payments_portal.Store.Tables.{IsKeyed, get, put, get-key, get-put_self}
use payments_portal.Purchases.Evolution.{op_key, operations-get}
use payments_portal.Purchases.Contracts.{Purchase, FinancialOperation}
use payments_portal.Purchases.Run.{
  Transaction, apply, run, escalates, committed_escalation, escalate_operation,
}

-- In flight before, and in review after.
abbrev went : Option Operation → Option Operation → Bool
went (some o) (some o') = is_in_flight o.operation_state && is_reviewed o'.operation_state
went _ _ = false

-- An escalation whose operation goes from in flight to review.
unfoldable pub sends_to_review : Transaction → Db → Bool
sends_to_review (escalates m instant purchase expected) db =
    let after = apply (escalates m instant purchase expected) db in
    went (get op_key expected.id db.operations) (get op_key expected.id after.operations)
sends_to_review _ db = false

-- The escalations of a run that do.
unfoldable pub sent_to_review : List Transaction → Db → ℕ
sent_to_review [] db = 0
sent_to_review (t ∷ ts) db =
    let rest = sent_to_review ts (apply t db) in if sends_to_review t db then rest + 1 else rest

pub sent_to_review-append :
    (ts us : List Transaction) (db : Db)
    → sent_to_review (ts ++ us) db ≡ sent_to_review ts db + sent_to_review us (run ts db)
unfolding sent_to_review run
sent_to_review-append [] us db = ground arith
sent_to_review-append (t ∷ ts) us db = ground (arith, sent_to_review-append ts us (apply t db))

not_both : (s : State) → (is_in_flight s && is_reviewed s) ≡ false
not_both State.pending = refl
not_both State.proven_not_sent = refl
not_both State.possible_send = refl
not_both State.unknown = refl
not_both State.bound = refl
not_both State.manual_review = refl

went-same : (o : Option Operation) → went o o ≡ false
went-same none = refl
went-same (some o) = not_both o.operation_state

escalate_rest_moves :
    (m : Moment) (instant : ℕ) (expected : FinancialOperation) (db : Db) (row : PurchaseIntent)
    (op : Operation) {escalated : Bool} {after : Db}
    → escalate_rest m instant expected db row op ≡ ok (escalated, after)
    → ((escalated ≡ false) × (after ≡ db))
      ⊎ ((escalated ≡ true)
          × (is_in_flight op.operation_state ≡ true)
          × (after.operations ≡ put op_key (refenced m State.manual_review op) db.operations))
unfolding escalate_rest
escalate_rest_moves m instant expected db row op h =
    ground
      (arith, review-operations m row op (external_create_outcome_unknown op.operation_kind) db)

went-escalated :
    (m : Moment) (instant : ℕ) (purchase : Purchase) (expected : FinancialOperation) (db : Db)
    {escalated : Bool} {after : Db}
    → IsKeyed op_key db.operations
    → escalate_operation m instant purchase expected db ≡ ok (escalated, after)
    → went (get op_key expected.id db.operations) (get op_key expected.id after.operations)
      ≡ escalated
unfolding escalate_operation
went-escalated m instant purchase expected db {escalated} {after} keyed h =
    let (row, op, _, is_op, run) =
      with_operation-eq-ok m db purchase expected (escalate_rest m instant expected db) h in
    let found : get op_key expected.id db.operations ≡ some op =
      subst (λ k. get op_key k db.operations ≡ some op)
        (next_operation-id expected.id (operations db purchase.id) is_op)
        (operations-get db purchase.id expected.id keyed is_op) in
    elim (escalate_rest_moves m instant expected db row op run) [
      | inl (skipped, same) ↦
          ap
            (λ (d : Db).
              went (get op_key expected.id db.operations) (get op_key expected.id d.operations))
            same
          ∙ went-same (get op_key expected.id db.operations)
          ∙ sym skipped
      | inr (counted, flying, written) ↦
          let new = refenced m State.manual_review op in
          let at : op_key new ≡ expected.id = get-key op_key expected.id db.operations found in
          let self : get op_key expected.id (put op_key new db.operations) ≡ some new =
            subst (λ k. get op_key k (put op_key new db.operations) ≡ some new) at
              (get-put_self op_key new db.operations {old = op}
                (subst (λ k. get op_key k db.operations ≡ some op) (sym at) found)) in
          ap (λ o. went o (get op_key expected.id after.operations)) found
          ∙ ap (λ os. went (some op) (get op_key expected.id os)) written
          ∙ ap (went (some op)) self
          ∙ ap (λ b. b && true) flying
          ∙ sym counted
    ]

-- What one escalation counts is what it sends to review.
pub sends_to_review-escalated :
    (m : Moment) (instant : ℕ) (purchase : Purchase) (expected : FinancialOperation) (db : Db)
    {escalated : Bool} {after : Db}
    → IsKeyed op_key db.operations
    → escalate_operation m instant purchase expected db ≡ ok (escalated, after)
    → sends_to_review (escalates m instant purchase expected) db ≡ escalated
unfolding sends_to_review apply
sends_to_review-escalated m instant purchase expected db keyed h =
    ap
      (λ r.
        went (get op_key expected.id db.operations)
          (get op_key expected.id (committed_escalation db r).operations))
      h
    ∙ went-escalated m instant purchase expected db keyed h
