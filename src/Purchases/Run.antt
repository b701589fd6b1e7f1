-- ===== src/Purchases/Run.antt =====
-- Any sequence of the financial transactions of apps/api/app/domains/purchases/financial.py, by any
-- callers with snapshots of any age. The database runs them one after another: a transaction that
-- raises is rolled back, and `bind_financial` may record a conflict although it raises.
pub mod History
pub mod OneSender
pub mod OneRequest
pub mod Batch
pub mod Works
pub mod Settled
pub mod BoundWorks
pub mod Receipts
pub mod Reviewed
mod Tests
use payments_portal.Purchases.Escalate.{escalate_operation}
use payments_portal.Base.{ℕ, Bool, true, false, Option, List, [], ◌∷◌, ok, err}
use payments_portal.Base.Int.{ℤ}
use payments_portal.Store.{Moment, Outcome, Db, RequestDocument, Failure, PreparedObservation}
use payments_portal.Purchases.Contracts.{FinancialOperation, Purchase}
use payments_portal.Purchases.Claim.{claim_financial}
use payments_portal.Purchases.Recovery
use payments_portal.Purchases.Recovery.{record_receipt, financial_pending}
use payments_portal.Purchases.Changed.{changed_unsent_terms}
use payments_portal.Purchases.Bind.{bind_financial}

pub data Transaction : Type 0 where
  claims : Moment → Outcome ℕ → Purchase → FinancialOperation → RequestDocument → Transaction
  proves_not_sent : Moment → Purchase → FinancialOperation → Transaction
  receives : Moment → Purchase → FinancialOperation → ℤ → Transaction
  waits : Moment → Purchase → FinancialOperation → Bool → Option Failure → Transaction
  changes_terms : Moment → Purchase → Transaction
  binds :
      Moment → Moment → Purchase → FinancialOperation → ℤ → Option PreparedObservation → Transaction
  escalates : Moment → ℕ → Purchase → FinancialOperation → Transaction

-- The commit, or the rollback of a transaction that raised.
abbrev pub committed : Db → Outcome Db → Db
committed db (ok after) = after
committed db (err e) = db

abbrev pub committed_claim : Db → Outcome (FinancialOperation × Db) → Db
committed_claim db (ok (shown, after)) = after
committed_claim db (err e) = db

abbrev pub committed_escalation : Db → Outcome (Bool × Db) → Db
committed_escalation db (ok (escalated, after)) = after
committed_escalation db (err e) = db

unfoldable pub apply : Transaction → Db → Db
apply (claims m session purchase expected request) db =
    committed_claim db (claim_financial m session purchase expected request db)
apply (proves_not_sent m purchase expected) db =
    committed db (Recovery.proven_not_sent m purchase expected db)
apply (receives m purchase expected provider_id) db =
    committed db (record_receipt m purchase expected provider_id db)
apply (waits m purchase expected conflict facts) db =
    committed db (financial_pending m purchase expected conflict facts db)
apply (changes_terms m purchase) db = committed db (changed_unsent_terms m purchase db)
apply (binds m m' purchase expected provider_id observation) db =
    (bind_financial m m' purchase expected provider_id observation db).1
apply (escalates m instant purchase expected) db =
    committed_escalation db (escalate_operation m instant purchase expected db)

unfoldable pub run : List Transaction → Db → Db
run [] db = db
run (t ∷ ts) db = run ts (apply t db)

-- Only a proof that nothing was sent opens an operation for another send.
abbrev pub may_reopen : Transaction → Bool
may_reopen (proves_not_sent m purchase expected) = true
may_reopen _ = false

abbrev pub is_escalation : Transaction → Bool
is_escalation (escalates m instant purchase expected) = true
is_escalation _ = false
