-- ===== src/Purchases/Escalate.antt =====
-- `escalate_overdue_financial` of apps/api/app/domains/purchases/financial.py, `read_purchase` of
-- service.py and the query `overdue_financial` of apps/api/app/infrastructure/queries/purchases.py:
-- the batch that sends overdue unknown outcomes to review.
pub mod Advances
use payments_portal.Purchases.Snapshot.{snapshot}
use payments_portal.Purchases.Recovery.{review}
use payments_portal.Purchases.Locking.{with_operation}
use payments_portal.Purchases.Contracts.{Purchase, FinancialOperation}
use payments_portal.Store.{
  Db, Moment, Outcome, Operation, PurchaseIntent, of_purchase, financial_recovery_deadline,
  recovery_work, kind_eq, owned, customer, purchase_not_found, value_error,
  external_create_outcome_unknown, is_in_flight,
}
use payments_portal.Base.{
  ℕ, Option, List, Bool, ◌∷◌, ◌+◌, ok, if◌then◌else◌, some, not, leb, ◌-◌, or_raise, some_and, err,
  false, [], true, find?, ◌==◌, ◌&&◌, opt_eq, none, ◌++◌, ◌>>=◌,
}

-- `MAX_FINANCIAL_RECOVERY_BATCH`
abbrev pub max_financial_recovery_batch : ℕ
max_financial_recovery_batch = 100

-- A row of the query: the deadline that it is ordered by, the owner and the purchase.
pub record Overdue : Type 0 where
  pub deadline : ℕ
  pub user_id : ℕ
  pub purchase_id : ℕ

abbrev pub stored_deadline : Db → Operation → Option ℕ
stored_deadline db op = financial_recovery_deadline op (recovery_work db op.create_operation_id)

abbrev overdue_at : Option ℕ → ℕ → Option PurchaseIntent → List Overdue
overdue_at (some at) now (some row) =
    if leb at now
    then record { deadline = at; user_id = row.user_id; purchase_id = row.purchase_intent_id } ∷ []
    else []
overdue_at _ _ _ = []

abbrev intent_of : Db → Option ℕ → Option PurchaseIntent
intent_of db none = none
intent_of db (some id) = find? (λ r. r.purchase_intent_id == id) db.intents

-- The joined rows that pass the query's conditions.
unfoldable pub overdue_rows : Db → ℕ → List Operation → List Overdue
overdue_rows db now [] = []
overdue_rows db now (op ∷ ops) =
    let rest = overdue_rows db now ops in
    if not (kind_eq op.operation_kind customer) && is_in_flight op.operation_state
    then overdue_at (stored_deadline db op) now (intent_of db op.purchase_intent_id) ++ rest
    else rest

-- `ORDER BY deadline`: rows with one deadline stay in the table's order here.
unfoldable pub insert_overdue : Overdue → List Overdue → List Overdue
insert_overdue row [] = row ∷ []
insert_overdue row (other ∷ rows) =
    let rest = insert_overdue row rows in
    if leb row.deadline other.deadline then row ∷ (other ∷ rows) else other ∷ rest

unfoldable pub sort_overdue : List Overdue → List Overdue
sort_overdue [] = []
sort_overdue (row ∷ rows) = insert_overdue row (sort_overdue rows)

-- `LIMIT`
unfoldable pub limited : ℕ → List Overdue → List Overdue
limited n [] = []
limited n (row ∷ rows) = let rest = limited (n - 1) rows in if n == 0 then [] else row ∷ rest

unfoldable pub overdue_financial : Db → ℕ → ℕ → List Overdue
overdue_financial db now limit = limited limit (sort_overdue (overdue_rows db now db.operations))

-- `read_purchase`
unfoldable pub read_purchase : Db → ℕ → ℕ → Outcome Purchase
read_purchase db user_id purchase_id =
    or_raise (owned db user_id purchase_id) purchase_not_found >>= λ row. snapshot db row

-- The transaction on one operation, which sees whether the operation has moved since the read.
unfoldable pub escalate_rest :
    Moment → ℕ → FinancialOperation → Db → PurchaseIntent → Operation → Outcome (Bool × Db)
escalate_rest m instant expected db row op =
    if some_and (λ at. leb at instant) (stored_deadline db op)
      && (opt_eq op.send_fence expected.fence && is_in_flight op.operation_state)
    then ok (true, review m row op (external_create_outcome_unknown op.operation_kind) db)
    else ok (false, db)

unfoldable pub escalate_operation :
    Moment → ℕ → Purchase → FinancialOperation → Db → Outcome (Bool × Db)
escalate_operation m instant purchase expected db =
    with_operation m db purchase expected (escalate_rest m instant expected db)

-- Where the batch stands: what has been counted, the transactions opened so far, and the tables. A
-- batch that has raised keeps what it had committed.
pub record Batch : Type 0 where
  pub count : ℕ
  pub transactions : ℕ
  pub tables : Db

abbrev counted : Bool → ℕ → ℕ
counted true n = n + 1
counted false n = n

-- `op.state in {…} and op.deadline and as_utc(op.deadline) <= instant`
abbrev pub is_overdue : ℕ → FinancialOperation → Bool
is_overdue instant op = is_in_flight op.state && some_and (λ at. leb at instant) op.deadline

-- What a transaction makes of the batch.
abbrev pub after_escalation : Batch → Outcome (Bool × Db) → Outcome (Unit {0}) × Batch
after_escalation b (ok (escalated, db)) = (
  ok tt,
  record { count = counted escalated b.count; transactions = b.transactions + 1; tables = db },
)
after_escalation b (err e) = (err e, b)

-- One operation of the inner loop; `moments` gives the moment of each transaction.
unfoldable pub escalate_step :
    (ℕ → Moment) → ℕ → Purchase → FinancialOperation → Batch → Outcome (Unit {0}) × Batch
escalate_step moments instant purchase op b =
    if is_overdue instant op
    then after_escalation b
        (escalate_operation (moments b.transactions) instant purchase op b.tables)
    else (ok tt, b)

-- The inner loop. `true` says that the limit has ended the batch.
unfoldable pub escalate_operations :
    (ℕ → Moment) → ℕ → ℕ → Purchase → List FinancialOperation → Batch → Outcome Bool × Batch
escalate_operations moments instant limit purchase [] b = (ok false, b)
escalate_operations moments instant limit purchase (op ∷ ops) b =
    let step = escalate_step moments instant purchase op b in
    let rest = escalate_operations moments instant limit purchase ops step.1 in
    if leb limit b.count
    then (ok true, b)
    else (elim step.0 [ ok _ ↦ rest | err e ↦ (err e, step.1) ])

-- The outer loop over the candidates.
unfoldable pub escalate_candidates :
    (ℕ → Moment) → ℕ → ℕ → List Overdue → Batch → Outcome (Unit {0}) × Batch
escalate_candidates moments instant limit [] b = (ok tt, b)
escalate_candidates moments instant limit (row ∷ rows) b =
    elim (read_purchase b.tables row.user_id row.purchase_id) [
      | err e ↦ (err e, b)
      | ok purchase ↦
          let (done, b') =
            escalate_operations moments instant limit purchase purchase.operations b in
          let rest = escalate_candidates moments instant limit rows b' in
          elim done [ err e ↦ (err e, b') | ok true ↦ (ok tt, b') | ok false ↦ rest ]
    ]

abbrev pub started : Db → Batch
started db = record { count = 0; transactions = 0; tables = db }

-- `escalate_overdue_financial`
unfoldable pub escalate_overdue_financial : (ℕ → Moment) → ℕ → ℕ → Db → Outcome (Unit {0}) × Batch
escalate_overdue_financial moments instant limit db =
    if leb 1 limit && leb limit max_financial_recovery_batch
    then escalate_candidates moments instant limit (overdue_financial db instant limit) (started db)
    else (err value_error, started db)
