-- ===== src/Customers/Run.antt =====
-- Any sequence of the transactions of apps/api/app/domains/billing/customers.py. A transaction that
-- raises is rolled back; a read may record what it raises, and the overdue batch is a sequence of
-- single escalations.
pub mod History
pub mod Lease
pub mod Batch
pub mod Receipts
use payments_portal.Customers.Overdue.{escalate_customer}
use payments_portal.Customers.Read.{apply_customer_read}
use payments_portal.Base.Int.{ℤ}
use payments_portal.Customers.Send.{claim_customer_send, record_customer_receipt}
use payments_portal.Customers.Ends.{
  record_customer_create_failure, release_unsent_claim, finish_customer_attempt,
}
use payments_portal.Customers.Open.{Configuration, User, CustomerOpen}
use payments_portal.Customers.Reserve.{reserve_customer, Fresh}
use payments_portal.Store.{Moment, Db, Outcome}
use payments_portal.Base.{ℕ, ok, err, List, Option, [], ◌∷◌, Bool, Text}

pub data CustomerTransaction : Type 0 where
  reserves : Moment → Bool → Configuration → Fresh → Outcome User → CustomerTransaction
  claims : Moment → Configuration → Outcome User → CustomerOpen → CustomerTransaction
  receives : Moment → CustomerOpen → ℤ → CustomerTransaction
  fails : Moment → CustomerOpen → ℤ → Option ℤ → Text → CustomerTransaction
  releases : Moment → CustomerOpen → CustomerTransaction
  finishes : Moment → CustomerOpen → CustomerTransaction
  reads : Moment → Moment → CustomerOpen → Option Text → Option Text → Bool → CustomerTransaction
  escalates : Moment → ℕ → ℕ → CustomerTransaction

-- The commit, or the rollback.
abbrev pub kept_or : {A : Type 0} → Db → Outcome (A × Db) → Db
kept_or db (ok (_, after)) = after
kept_or db (err e) = db

abbrev pub kept : Db → Outcome Db → Db
kept db (ok after) = after
kept db (err e) = db

unfoldable pub apply : CustomerTransaction → Db → Db
apply (reserves m busy cfg fresh session) db =
    kept_or db (reserve_customer m busy cfg fresh session db)
apply (claims m cfg session expected) db =
    kept_or db (claim_customer_send m cfg session expected db)
apply (receives m expected provider_id) db =
    kept_or db (record_customer_receipt m expected provider_id db)
apply (fails m expected http_status lbx_code reason) db =
    kept db (record_customer_create_failure m expected http_status lbx_code reason db)
apply (releases m expected) db = kept db (release_unsent_claim m expected db)
apply (finishes m expected) db = kept db (finish_customer_attempt m expected db)
apply (reads m again expected provider outer_key ambiguous) db =
    (apply_customer_read m again expected provider outer_key ambiguous db).1
apply (escalates m instant id) db = kept_or db (escalate_customer m instant id db)

unfoldable pub run : List CustomerTransaction → Db → Db
run [] db = db
run (t ∷ ts) db = run ts (apply t db)
