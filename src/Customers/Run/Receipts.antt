-- ===== src/Customers/Run/Receipts.antt =====
-- A provider's number is written by a receipt and read back from the tables.
use payments_portal.Customers.Run.History.{receipt_kept}
use payments_portal.Customers.Open.{CustomerOpen, receipt_id}
use payments_portal.Customers.Send.{record_customer_receipt}
use payments_portal.Customers.Run.{CustomerTransaction, run}
use payments_portal.Purchases.Evolution.{op_key}
use payments_portal.Store.Tables.{IsKeyed}
use payments_portal.Store.{Moment, Db, Operation, customer_operation}
use payments_portal.Base.Int.{pos}
use payments_portal.Base.{ℕ, ◌≡◌, ok, some, List, sym, subst, arith, str, int, int-str}

-- Where operations are stored under their identities: the number of a recorded receipt is read back
-- from the customer's operation, as its decimal text, after any later transactions.
pub record_customer_receipt_round_trip :
    (m : Moment) (expected : CustomerOpen) (n : ℕ) (db : Db) (ts : List CustomerTransaction)
    {seen : CustomerOpen} {after : Db}
    → IsKeyed op_key db.operations
    → record_customer_receipt m expected (pos n) db ≡ ok (seen, after)
    → (op : Operation) × (customer_operation (run ts after) expected.customer_id ≡ some op)
      × (receipt_id op ≡ ok (some (str n)))
      × (int (str n) ≡ n)
record_customer_receipt_round_trip m expected n db ts keyed first =
    let kept = receipt_kept m expected (pos n) db ts keyed first in
    let one_number : n ≡ kept.provider = ground (arith, kept.number) in
    (
      kept.slot.operation,
      kept.held.operation,
      subst (λ i. receipt_id kept.slot.operation ≡ ok (some (str i))) (sym one_number) kept.receipt,
      int-str n,
    )
