-- ===== src/Customers/Overdue.antt =====
-- `escalate_overdue_customers` of apps/api/app/domains/billing/customers.py, with the query
-- `overdue_customer_ids`: the batch that sends overdue customer creates to review.
use payments_portal.Customers.Reviews.{record_review}
use payments_portal.Store.{
  Db, Operation, Moment, is_in_flight, Outcome, lock_customer, kind_eq, customer_operation, Kind,
  external_create_outcome_unknown, value_error,
}
use payments_portal.Base.{
  ℕ, some, ◌>>=◌, Option, List, Bool, [], ◌∷◌, false, ◌+◌, if◌then◌else◌, suc, ◌&&◌, ok, true, leb,
  some_and, err, zero, none, ◌++◌,
}

-- The rows that the query's conditions leave, with their deadlines.
abbrev due_at : ℕ → Option ℕ → ℕ → List (ℕ × ℕ)
due_at instant none id = []
due_at instant (some at) id = if leb at instant then (at, id) ∷ [] else []

unfoldable pub due_customers : ℕ → List Operation → List (ℕ × ℕ)
due_customers instant [] = []
due_customers instant (op ∷ ops) =
    let rest = due_customers instant ops in
    if kind_eq op.operation_kind Kind.customer && is_in_flight op.operation_state
    then due_at instant op.unknown_recovery_deadline_at op.customer_id ++ rest
    else rest

-- `ORDER BY unknown_recovery_deadline_at`: rows with one deadline stay in the table's order here.
unfoldable pub insert_due : ℕ × ℕ → List (ℕ × ℕ) → List (ℕ × ℕ)
insert_due row [] = row ∷ []
insert_due row (other ∷ rows) =
    let rest = insert_due row rows in
    if leb row.0 other.0 then row ∷ (other ∷ rows) else other ∷ rest

unfoldable pub sort_due : List (ℕ × ℕ) → List (ℕ × ℕ)
sort_due [] = []
sort_due (row ∷ rows) = insert_due row (sort_due rows)

-- `LIMIT`
unfoldable pub first_due : ℕ → List (ℕ × ℕ) → List ℕ
first_due n [] = []
first_due zero (row ∷ rows) = []
first_due (suc n) (row ∷ rows) = row.1 ∷ first_due n rows

unfoldable pub overdue_customer_ids : ℕ → ℕ → Db → List ℕ
overdue_customer_ids instant limit db =
    first_due limit (sort_due (due_customers instant db.operations))

-- The tests on the operation as it is now.
abbrev pub is_overdue_create : ℕ → Operation → Bool
is_overdue_create instant op =
    is_in_flight op.operation_state
    && some_and (λ at. leb at instant) op.unknown_recovery_deadline_at

abbrev pub escalate_create : ℕ → Option Operation → Db → Bool × Db
escalate_create instant none db = (false, db)
escalate_create instant (some op) db =
    if is_overdue_create instant op
    then (true, record_review op (external_create_outcome_unknown Kind.customer) db)
    else (false, db)

-- One transaction of the batch.
unfoldable pub escalate_customer : Moment → ℕ → ℕ → Db → Outcome (Bool × Db)
escalate_customer m instant id db = do
  c ← lock_customer m db id
  ok (escalate_create instant (customer_operation db id) db)

abbrev pub plus_one : Bool → ℕ → ℕ
plus_one true n = n + 1
plus_one false n = n

-- The loop: a lock that is refused ends it, behind what has been committed.
unfoldable pub escalate_customers : List (Moment × ℕ) → ℕ → ℕ → Db → Outcome ℕ × Db
escalate_customers [] instant count db = (ok count, db)
escalate_customers ((m, id) ∷ rest) instant count db = elim (escalate_customer m instant id db) [
  | err e ↦ (err e, db)
  | ok (escalated, after) ↦ escalate_customers rest instant (plus_one escalated count) after
]

abbrev pub at_moments : (ℕ → Moment) → ℕ → List ℕ → List (Moment × ℕ)
at_moments moments k [] = []
at_moments moments k (id ∷ ids) = (moments k, id) ∷ at_moments moments (suc k) ids

-- `escalate_overdue_customers`; the transactions of the batch have the moments 0, 1, …
unfoldable pub escalate_overdue_customers : (ℕ → Moment) → ℕ → ℕ → Db → Outcome ℕ × Db
escalate_overdue_customers moments instant limit db =
    if leb 1 limit && leb limit 100
    then escalate_customers (at_moments moments 0 (overdue_customer_ids instant limit db)) instant 0
        db
    else (err value_error, db)
