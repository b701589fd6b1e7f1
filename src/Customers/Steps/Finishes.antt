-- ===== src/Customers/Steps/Finishes.antt =====
-- The end of an attempt takes a step of the relation.
use payments_portal.Customers.Steps.Sends.{read_slot, read_slot-Holds}
use payments_portal.Customers.Run.{finishes}
use payments_portal.Customers.Edits.{
  WritesWork, Edits, Edits-of, left, WritesWork-same, WritesWork-put, wrote,
}
use payments_portal.Purchases.Evolution.{op_key}
use payments_portal.Store.Tables.{IsKeyed, put}
use payments_portal.Customers.Open.{CustomerOpen}
use payments_portal.Customers.Ends.{
  save_unleased, finish_rows, finish_customer_attempt, outcome_unknown,
}
use payments_portal.Store.{
  Db, Moment, Work, Customer, recovery_work, Operation, save_work, lock_customer,
  customer_operation, is_possible_send, save_operation,
}
use payments_portal.Base.{
  if◌then◌else◌, ℕ, ok, Option, ◌≡◌, ap, ◌⊎◌, sym, arith, some, inl, >>=-eq-ok, Bool-cases, opt_eq,
  ◌&&◌, refl, inr, none, subst, ◌==◌, is_none, is_some, ◌∙◌, opt_eq→eq,
}
use payments_portal.Customers.Slot.{Holds}
use payments_portal.Customers.Steps.{
  Db, Moment, Work, CustomerOpen, IsKeyed, op_key, Advances, map_work, unleased, Advances-same,
  Advances-Edits, finished, is_possible_send, ends,
}
use payments_portal.Customers.Steps.Ends.{same_tables, work_only-Edits}

-- What a finished attempt writes.
ended : Moment → CustomerOpen → Customer → Operation → Db → Db
ended m expected c op db =
    let db' = save_unleased expected.fence (recovery_work db op.create_operation_id) db in
    if is_possible_send op.operation_state && is_none c.provider_customer_id
    then save_operation (outcome_unknown m op) db'
    else db'

unleased_rows :
    (fence : Option ℕ) (db : Db) (id : ℕ) (old : Option Work)
    → recovery_work db id ≡ old
    → let after = save_unleased fence old db in
      (after.customers ≡ db.customers)
      × (after.operations ≡ db.operations)
      × WritesWork db after id (map_work (unleased fence) old)
unleased_rows fence db id none found = (refl, refl, WritesWork-same db db id none refl found)
unleased_rows fence db id (some w) found = elim (Bool-cases (opt_eq w.lease_owner fence)) [
  | inl own ↦
      let free = record w { lease_owner = none; lease_expires_at = none } in
      rw own (refl, refl, WritesWork-put db (save_work free db) id w free refl found refl)
  | inr other ↦ rw other (refl, refl, WritesWork-same db db id (some w) refl found)
]

ended-Edits :
    (m : Moment) (expected : CustomerOpen) (c : Customer) (op : Operation) (db : Db) (k : ℕ)
    → IsKeyed op_key db.operations
    → Holds db k (read_slot db c op)
    → Edits db (ended m expected c op db) k (finished m expected.fence (read_slot db c op))
unfolding ended recovery_work
ended-Edits m expected c op db k keyed held =
    let s = read_slot db c op in
    let old = recovery_work db op.create_operation_id in
    let db' = save_unleased expected.fence old db in
    let (customers, operations, works) =
      unleased_rows expected.fence db op.create_operation_id old refl in
    elim (Bool-cases (is_possible_send op.operation_state && is_none c.provider_customer_id)) [
      | inl sent ↦
          let new = record s {
            operation = outcome_unknown m op;
            work = map_work (unleased expected.fence) old;
          } in
          rw sent (
            Edits-of db (save_operation (outcome_unknown m op) db') k s new keyed held
              (left customers refl) (wrote (ap (put op_key (outcome_unknown m op)) operations) refl)
              (record { customer = refl; kind = refl })
              (record { here = works.here; there = works.there }))
      | inr other ↦ rw other (
          work_only-Edits db db' k s (map_work (unleased expected.fence) old) keyed held customers
            operations works)
    ]

finish_rows_cases :
    (m : Moment) (expected : CustomerOpen) (c : Customer) (found : Option Operation) (db : Db)
    → (finish_rows m expected c found db ≡ db)
      ⊎ ((op : Operation) × (found ≡ some op)
          × (op.send_fence ≡ expected.fence)
          × (finish_rows m expected c found db ≡ ended m expected c op db))
unfolding finish_rows ended
finish_rows_cases m expected c none db = inl refl
finish_rows_cases m expected c (some op) db =
    let fits =
      (op.create_operation_id == expected.operation_id)
      && (opt_eq op.send_fence expected.fence && is_some expected.fence) in
    elim (Bool-cases fits) [
      | inr other ↦ inl (rw other refl)
      | inl fit ↦
          let same : expected.operation_id ≡ op.create_operation_id = ground (arith, fit) in
          inr (
            op,
            refl,
            opt_eq→eq op.send_fence expected.fence (ground (arith, fit)),
            rw (fit, same) refl,
          )
    ]

pub finish_customer_attempt-Advances :
    (m : Moment) (expected : CustomerOpen) (db : Db) {after : Db}
    → IsKeyed op_key db.operations
    → finish_customer_attempt m expected db ≡ ok after
    → Advances (finishes m expected) db after
unfolding finish_customer_attempt
finish_customer_attempt-Advances m expected db {after} keyed h =
    let t = finishes m expected in
    let k = expected.customer_id in
    let (c, locked, e) = >>=-eq-ok (lock_customer m db k) _ h in
    let written = same_tables after (finish_rows m expected c (customer_operation db k) db) e in
    elim (finish_rows_cases m expected c (customer_operation db k) db) [
      | inl same ↦ Advances-same t db after keyed (written ∙ same)
      | inr (op, found, current, rows) ↦
          let s = read_slot db c op in
          let held = read_slot-Holds m db k c op locked found in
          Advances-Edits t db after k s (finished m expected.fence s) held
            (subst (λ d. Edits db d k (finished m expected.fence s)) (sym (written ∙ rows))
              (ended-Edits m expected c op db k keyed held))
            (ends m expected refl current refl)
    ]
