-- ===== src/Purchases/Locking.antt =====
-- What the transactions of apps/api/app/domains/purchases/financial.py share: `_locked` of service.py,
-- the row of the operation, the rows written back, and the states that their guards ask for.
use payments_portal.Base.{ℕ, List, ◌==◌, find?, ok, ◌>>=◌, ◌>>◌, check, or_raise, ◌≡◌, >>=-eq-ok}
use payments_portal.Store.{
  Outcome, Moment, Db, Operation, IntentState, PurchaseIntent, owned, hold, operations, lock_user,
  purchase_not_found, purchase_scope_released, stop_iteration,
}
use payments_portal.Purchases.Contracts.{FinancialOperation, Purchase}

-- `_locked`
unfoldable pub locked : Moment → Db → Purchase → Outcome PurchaseIntent
locked m db purchase = do
  lock_user m
  row ← or_raise (owned db purchase.user_id purchase.id) purchase_not_found
  scope ← or_raise (hold db row.user_id row.product_id) purchase_scope_released
  check (scope.purchase_intent_id == row.purchase_intent_id) purchase_scope_released
  ok row

-- `next(op for op in operations if op.create_operation_id == expected.id)`
unfoldable pub next_operation : ℕ → List Operation → Outcome Operation
next_operation id ops = or_raise (find? (λ o. o.create_operation_id == id) ops) stop_iteration

-- How the transactions on an operation begin: the purchase is locked, and the operation is taken
-- from the rows of the purchase.
abbrev pub with_operation :
    {A : Type 0}
    → Moment
    → Db
    → Purchase
    → FinancialOperation
    → (PurchaseIntent → Operation → Outcome A)
    → Outcome A
with_operation m db purchase expected body = do
  row ← locked m db purchase
  op ← next_operation expected.id (operations db purchase.id)
  body row op

pub with_operation-eq-ok :
    {A : Type 0} (m : Moment) (db : Db) (purchase : Purchase) (expected : FinancialOperation)
    (body : PurchaseIntent → Operation → Outcome A) {a : A}
    → with_operation m db purchase expected body ≡ ok a
    → (row : PurchaseIntent) × (op : Operation) × (locked m db purchase ≡ ok row)
      × (next_operation expected.id (operations db purchase.id) ≡ ok op)
      × (body row op ≡ ok a)
with_operation-eq-ok m db purchase expected body h =
    let (row, is_row, h1) = >>=-eq-ok (locked m db purchase) _ h in
    let (op, is_op, h2) =
      >>=-eq-ok (next_operation expected.id (operations db purchase.id)) (body row) h1 in
    (row, op, is_row, is_op, h2)

abbrev pub with_state : Moment → IntentState → PurchaseIntent → PurchaseIntent
with_state m state row = record row { state = state; state_updated_at = m.now }
