-- ===== src/Customers/Steps/Ends.antt =====
-- `record_customer_create_failure` takes a step of the relation.
use payments_portal.Customers.Steps.Sends.{read_slot, read_slot-Holds}
use payments_portal.Purchases.Snapshot.{int32_min, int32_max}
use payments_portal.Customers.Run.{fails}
use payments_portal.Customers.Edits.{
  WritesWork, Edits, Edits-of, left, WritesWork-same, WritesWork-put,
}
use payments_portal.Purchases.Evolution.{op_key}
use payments_portal.Store.Tables.{IsKeyed}
use payments_portal.Customers.Open.{CustomerOpen}
use payments_portal.Base.Int.{ℤ, leb_ℤ}
use payments_portal.Customers.Send.{fence_fits, has_identity}
use payments_portal.Customers.Ends.{
  failure_rows, record_customer_create_failure, save_failed, failed_work, http_number,
}
use payments_portal.Store.{
  Db, Moment, Work, Customer, recovery_work, Outcome, Operation, value_error, lock_customer,
  customer_operation,
}
use payments_portal.Base.{
  ℕ, ok, Option, ◌≡◌, Text, ap, err, true, ◌⊎◌, sym, arith, some, inl, >>=-eq-ok, Bool-cases, check,
  ◌&&◌, refl, inr, none_or, none, subst,
}
use payments_portal.Customers.Slot.{Create, Holds}
use payments_portal.Customers.Steps.{
  Db, Moment, Work, ℤ, CustomerOpen, Outcome, IsKeyed, op_key, Advances, map_work, Advances-same,
  Advances-Edits, noted, notes_failure,
}

pub same_tables : (a b : Db) → ◌≡◌ {A = Outcome Db} (ok b) (ok a) → a ≡ b
same_tables a b e = ap (λ r. elim r [ ok x ↦ x | err _ ↦ a ]) (sym e)

-- Only the recovery item changes.
pub work_only-Edits :
    (db after : Db) (k : ℕ) (s : Create) (w : Option Work)
    → IsKeyed op_key db.operations
    → Holds db k s
    → after.customers ≡ db.customers
    → after.operations ≡ db.operations
    → WritesWork db after s.operation.create_operation_id w
    → Edits db after k (record s { work = w })
work_only-Edits db after k s w keyed held customers operations works =
    Edits-of db after k s (record s { work = w }) keyed held (left customers refl)
      (left operations refl) (record { customer = refl; kind = refl }) works

failed_rows :
    (m : Moment) (http_status : ℕ) (lbx_code : Option ℤ) (reason : Text) (db : Db) (id : ℕ)
    (old : Option Work)
    → recovery_work db id ≡ old
    → let after = save_failed m http_status lbx_code reason old db in
      (after.customers ≡ db.customers)
      × (after.operations ≡ db.operations)
      × WritesWork db after id (map_work (failed_work m http_status lbx_code reason) old)
failed_rows m http_status lbx_code reason db id none found =
    (refl, refl, WritesWork-same db db id none refl found)
failed_rows m http_status lbx_code reason db id (some w) found = (
  refl,
  refl,
  WritesWork-put db (save_failed m http_status lbx_code reason (some w) db) id w
      (failed_work m http_status lbx_code reason w) refl found refl,
)

fence_fits-operation :
    (expected : CustomerOpen) (c : Customer) (op : Operation)
    → fence_fits expected c op ≡ true
    → expected.operation_id ≡ op.create_operation_id
unfolding fence_fits
fence_fits-operation expected c op h = ground (arith, h)

-- The tables stay, or the failure is noted on the recovery item of the operation.
failure_rows_cases :
    (m : Moment) (expected : CustomerOpen) (http_status : ℕ) (lbx_code : Option ℤ) (reason : Text)
    (c : Customer) (found : Option Operation) (db : Db) {after : Db}
    → failure_rows m expected http_status lbx_code reason c found db ≡ ok after
    → (after ≡ db)
      ⊎ ((op : Operation) × (found ≡ some op)
          × (after
              ≡ save_failed m http_status lbx_code reason
                  (recovery_work db op.create_operation_id)
                  db))
unfolding failure_rows
failure_rows_cases m expected http_status lbx_code reason c none db h = inl (ground (arith, h))
failure_rows_cases m expected http_status lbx_code reason c (some op) db {after} h =
    elim (Bool-cases (expected.may_create && fence_fits expected c op)) [
      | inr other ↦ inl (same_tables after db (rw other at h))
      | inl fits ↦
          let (known, _, e) = >>=-eq-ok (has_identity c op) _ (rw fits at h) in
          elim (Bool-cases known) [
            | inl is_known ↦ inl (same_tables after db (rw is_known at e))
            | inr unknown ↦
                let at_id = fence_fits-operation expected c op (ground (arith, fits)) in
                inr (
                  op,
                  refl,
                  same_tables after
                      (save_failed m http_status lbx_code reason
                        (recovery_work db op.create_operation_id) db)
                      (subst
                        (λ i.
                          ◌≡◌ {A = Outcome Db}
                            (ok (save_failed m http_status lbx_code reason (recovery_work db i) db))
                            (ok after))
                        at_id (rw unknown at e)),
                )
          ]
    ]

pub record_customer_create_failure-Advances :
    (m : Moment) (expected : CustomerOpen) (http_status : ℤ) (lbx_code : Option ℤ) (reason : Text)
    (db : Db) {after : Db}
    → IsKeyed op_key db.operations
    → record_customer_create_failure m expected http_status lbx_code reason db ≡ ok after
    → Advances (fails m expected http_status lbx_code reason) db after
unfolding record_customer_create_failure
record_customer_create_failure-Advances m expected http_status lbx_code reason db {after} keyed h =
    let t = fails m expected http_status lbx_code reason in
    let k = expected.customer_id in
    let (status, _, h1) = >>=-eq-ok (http_number http_status) _ h in
    let (_, _, h2) =
      >>=-eq-ok (check (none_or (λ n. leb_ℤ int32_min n && leb_ℤ n int32_max) lbx_code) value_error)
        _ h1 in
    let (c, locked, h3) = >>=-eq-ok (lock_customer m db k) _ h2 in
    elim (failure_rows_cases m expected status lbx_code reason c (customer_operation db k) db h3) [
      | inl same ↦ Advances-same t db after keyed same
      | inr (op, found, written) ↦
          let s = read_slot db c op in
          let held = read_slot-Holds m db k c op locked found in
          let id = op.create_operation_id in
          let (customers, operations, works) =
            failed_rows m status lbx_code reason db id (recovery_work db id) refl in
          Advances-Edits t db after k s (noted m status lbx_code reason s) held
            (subst (λ d. Edits db d k (noted m status lbx_code reason s)) (sym written)
              (work_only-Edits db (save_failed m status lbx_code reason (recovery_work db id) db) k
                s (noted m status lbx_code reason s).work keyed held customers operations works))
            (notes_failure m status lbx_code reason refl)
    ]
