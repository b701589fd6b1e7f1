-- ===== src/Purchases/Snapshot/Shown.antt =====
-- What `_operation` shows of the stored row.
use payments_portal.Base.{◌≡◌, Bool, ok, arith}
use payments_portal.Store.{Db, Operation}
use payments_portal.Purchases.Contracts.{FinancialOperation}
use payments_portal.Purchases.Snapshot.{operation_snapshot, proven_identity, stored_identity}

-- The permission is the caller's word, and the fields that fence a send are the row's.
pub record Shows (op : Operation) (may_send : Bool) (shown : FinancialOperation) : Type 0 where
  pub permission : shown.may_send ≡ may_send
  pub same_id : shown.id ≡ op.create_operation_id
  pub same_state : shown.state ≡ op.operation_state
  pub same_fence : shown.fence ≡ op.send_fence
  pub same_bound : proven_identity (stored_identity op.bound_external_object_id) ≡ ok shown.bound_id

pub operation_snapshot-Shows :
    (db : Db) (op : Operation) (may_send : Bool) {shown : FinancialOperation}
    → operation_snapshot db op may_send ≡ ok shown
    → Shows op may_send shown
unfolding operation_snapshot
operation_snapshot-Shows db op may_send h = ground arith
