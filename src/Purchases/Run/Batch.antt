-- ===== src/Purchases/Run/Batch.antt =====
-- The batch of overdue operations is a run of its transactions, and it respects its limit.
use payments_portal.Purchases.Run.History.{run-IsKeyed}
use payments_portal.Purchases.Evolution.{op_key}
use payments_portal.Purchases.Run.Reviewed.{
  sent_to_review, sends_to_review-escalated, sent_to_review-append,
}
use payments_portal.Store.Tables.{IsKeyed}
use payments_portal.Purchases.Contracts.{Purchase, FinancialOperation}
use payments_portal.Store.{Moment, Db}
use payments_portal.Purchases.Escalate.{
  escalate_step, escalate_operations, escalate_candidates, escalate_overdue_financial, Batch,
  Overdue, read_purchase, is_overdue, escalate_operation, started, max_financial_recovery_batch,
  overdue_financial,
}
use payments_portal.Purchases.Run.{
  run, Transaction, apply, Moment, Db, Purchase, is_escalation, escalates,
}
use payments_portal.Base.{
  ℕ, List, ◌≡◌, [], ◌++◌, All, ◌∷◌, ◌+◌, arith, ◌∙◌, ap, leb, Bool-cases, Result-cases, refl, true,
  sym, false, inl, ◌≤◌, All-append, inr, ◌&&◌, subst,
}

-- From one state of the batch to a later one: the tables are a run of escalations, each that sends
-- its operation to review is counted, and the count stays within the limit.
abbrev Ran : ℕ → Batch → Batch → Type 0
Ran limit b b' =
    (ts : List Transaction) × (b'.tables ≡ run ts b.tables)
    × All (λ t. is_escalation t ≡ true) ts
    × (b.count ≤ limit → b'.count ≤ limit)
    × (IsKeyed op_key b.tables.operations → b'.count ≡ b.count + sent_to_review ts b.tables)

run-append : (ts us : List Transaction) (db : Db) → run (ts ++ us) db ≡ run us (run ts db)
unfolding run
run-append [] us db = refl
run-append (t ∷ ts) us db = run-append ts us (apply t db)

Ran-refl : (limit : ℕ) (b : Batch) → Ran limit b b
unfolding run sent_to_review
Ran-refl limit b = ([], refl, tt, (λ h. h), (λ _. ground arith))

Ran-trans : (limit : ℕ) (a b c : Batch) → Ran limit a b → Ran limit b c → Ran limit a c
Ran-trans limit a b c (ts, e, all_ts, low, counts) (us, f, all_us, low', counts') = (
  ts ++ us,
  f ∙ ap (run us) e ∙ sym (run-append ts us a.tables),
  All-append (λ t. is_escalation t ≡ true) ts us all_ts all_us,
  (λ h. low' (low h)),
  (λ keyed.
      let first = counts keyed in
      let keyed_b : IsKeyed op_key b.tables.operations =
        subst (λ (d : Db). IsKeyed op_key d.operations) (sym e) (run-IsKeyed ts a.tables keyed) in
      let second : c.count ≡ b.count + sent_to_review us (run ts a.tables) =
        subst (λ d. c.count ≡ b.count + sent_to_review us d) e (counts' keyed_b) in
      ground (arith, first, second, sent_to_review-append ts us a.tables)),
)

escalate_step-Ran :
    (moments : ℕ → Moment) (instant limit : ℕ) (purchase : Purchase) (op : FinancialOperation)
    (b : Batch)
    → leb limit b.count ≡ false
    → Ran limit b (escalate_step moments instant purchase op b).1
unfolding escalate_step run apply sent_to_review
escalate_step-Ran moments instant limit purchase op b room =
    elim (Bool-cases (is_overdue instant op)) [
      | inr early ↦ rw (early, escalate_step) (Ran-refl limit b)
      | inl due ↦
          rw (due, escalate_step)
            (elim (Result-cases
              (escalate_operation (moments b.transactions) instant purchase op b.tables)) [
                | inr (e, refused) ↦ rw refused (Ran-refl limit b)
                | inl ((escalated, after), done) ↦ rw done (
                  escalates (moments b.transactions) instant purchase op ∷ [],
                  rw done refl,
                  (refl, tt),
                  (λ h. ground arith),
                  (λ keyed. ground (
                    arith,
                    sends_to_review-escalated (moments b.transactions) instant purchase op b.tables
                        keyed done,
                  )),
                )
              ])
    ]

escalate_operations-Ran :
    (moments : ℕ → Moment) (instant limit : ℕ) (purchase : Purchase) (ops : List FinancialOperation)
    (b : Batch)
    → Ran limit b (escalate_operations moments instant limit purchase ops b).1
unfolding escalate_operations
escalate_operations-Ran moments instant limit purchase [] b = Ran-refl limit b
escalate_operations-Ran moments instant limit purchase (op ∷ ops) b =
    let step = escalate_step moments instant purchase op b in
    elim (Bool-cases (leb limit b.count)) [
      | inl full ↦ rw full (Ran-refl limit b)
      | inr room ↦
          let first = escalate_step-Ran moments instant limit purchase op b room in
          rw room (elim (Result-cases step.0) [
            | inr (e, refused) ↦ rw refused first
            | inl (_, done) ↦ rw done (
                Ran-trans limit b step.1
                  (escalate_operations moments instant limit purchase ops step.1).1 first
                  (escalate_operations-Ran moments instant limit purchase ops step.1))
          ])
    ]

escalate_candidates-Ran :
    (moments : ℕ → Moment) (instant limit : ℕ) (rows : List Overdue) (b : Batch)
    → Ran limit b (escalate_candidates moments instant limit rows b).1
unfolding escalate_candidates
escalate_candidates-Ran moments instant limit [] b = Ran-refl limit b
escalate_candidates-Ran moments instant limit (row ∷ rows) b =
    elim (Result-cases (read_purchase b.tables row.user_id row.purchase_id)) [
      | inr (e, refused) ↦ rw (refused, escalate_candidates) (Ran-refl limit b)
      | inl (purchase, read) ↦
          let inner = escalate_operations moments instant limit purchase purchase.operations b in
          let first =
            escalate_operations-Ran moments instant limit purchase purchase.operations b in
          rw (read, escalate_candidates)
            (elim (Result-cases inner.0) [
              | inr (e, refused) ↦ rw refused first
              | inl (true, full) ↦ rw full first
              | inl (false, room) ↦ rw room (
                  Ran-trans limit b inner.1
                    (escalate_candidates moments instant limit rows inner.1).1 first
                    (escalate_candidates-Ran moments instant limit rows inner.1))
            ])
    ]

escalate_overdue_financial-Ran :
    (moments : ℕ → Moment) (instant limit : ℕ) (db : Db)
    → Ran limit (started db) (escalate_overdue_financial moments instant limit db).1
unfolding escalate_overdue_financial
escalate_overdue_financial-Ran moments instant limit db =
    elim (Bool-cases (leb 1 limit && leb limit max_financial_recovery_batch)) [
      | inl fits ↦ rw fits (
          escalate_candidates-Ran moments instant limit (overdue_financial db instant limit)
            (started db))
      | inr wrong ↦ rw wrong (Ran-refl limit (started db))
    ]

-- Where operations are stored under their identities, the batch, whether it returns or raises,
-- leaves the tables that a sequence of escalations makes of the ones before; its count is the number
-- of these that found their operation in flight and left it in review, and is never above its limit.
pub escalate_overdue_financial-runs :
    (moments : ℕ → Moment) (instant limit : ℕ) (db : Db)
    → IsKeyed op_key db.operations
    → let b = (escalate_overdue_financial moments instant limit db).1 in
      (ts : List Transaction) × (b.tables ≡ run ts db)
      × All (λ t. is_escalation t ≡ true) ts
      × (b.count ≡ sent_to_review ts db)
      × (b.count ≤ limit)
escalate_overdue_financial-runs moments instant limit db keyed =
    let (ts, e, all_ts, low, counts) = escalate_overdue_financial-Ran moments instant limit db in
    (ts, e, all_ts, ground (arith, counts keyed), ground (arith, low))
