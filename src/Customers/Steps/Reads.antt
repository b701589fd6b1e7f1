-- ===== src/Customers/Steps/Reads.antt =====
-- `apply_customer_read` and the single escalation take the steps of the relation.
use payments_portal.Customers.Steps.Answers.{finished_rows, operation_only-Edits}
use payments_portal.Customers.Edits.{
  Wrote, Edits, customer_key, SameOwner, left, Edits-of, wrote, WritesWork-same,
}
use payments_portal.Customers.Steps.Sends.{read_slot, lock_customer-get}
use payments_portal.Purchases.Evolution.{op_key}
use payments_portal.Store.Tables.{IsKeyed, put, get-key}
use payments_portal.Customers.Open.{CustomerOpen}
use payments_portal.Customers.Run.{CustomerTransaction}
use payments_portal.Customers.Read.{
  unread, already_bound, bound_create_rows, bound_create, bound_slot, is_past,
}
use payments_portal.Store.{
  Db, open_case, Customer, Moment, Operation, recovery_work, ReasonCode, save_customer,
  lock_customer, is_pending, save_operation, external_create_outcome_unknown, Kind,
  customer_operation, is_reviewed, State, other_reason, customer_original_key_mismatch,
  customer_identity_conflict,
}
use payments_portal.Customers.Reviews.{
  record_review, record_conflict, in_manual_review, conflicting, is_original,
}
use payments_portal.Base.{
  if◌then◌else◌, some, ℕ, Option, Text, Bool, ◌≡◌, Bool-cases, Result-cases, inl, inr, some, refl,
  ap, some-injective, sym, ◌∙◌, subst, codes,
}
use payments_portal.Customers.Slot.{Holds}
use payments_portal.Customers.Steps.{
  Db, Moment, CustomerTransaction, CustomerOpen, IsKeyed, op_key, Edits, Advances, refuted,
  reviewed, is_pending, identified, Advances-same, Advances-Edits, State, still_unknown, refutes,
  goes_to_review, stays_unknown,
}

record_review-Edits :
    (db base : Db) (k : ℕ) (c c' : Customer) (op new : Operation) (reason : ReasonCode)
    → IsKeyed op_key db.operations
    → Holds db k (read_slot db c op)
    → Wrote Customer customer_key c c' db.customers base.customers
    → base.operations ≡ db.operations
    → base.works ≡ db.works
    → SameOwner op new
    → new.create_operation_id ≡ op.create_operation_id
    → Edits db (record_review new reason base) k (record {
      customer = c';
      operation = in_manual_review new;
      work = recovery_work db op.create_operation_id;
    })
unfolding record_review open_case
record_review-Edits db base k c c' op new reason keyed held customers operations works own same =
    Edits-of db (record_review new reason base) k (read_slot db c op)
      (record {
        customer = c';
        operation = in_manual_review new;
        work = recovery_work db op.create_operation_id;
      })
      keyed held customers (wrote (ap (put op_key (in_manual_review new)) operations) same)
      (record { customer = own.customer; kind = own.kind })
      (WritesWork-same db (record_review new reason base) op.create_operation_id
        (recovery_work db op.create_operation_id) works refl)

pub record_conflict-Edits :
    (m : Moment) (db : Db) (k : ℕ) (c : Customer) (op : Operation) (provider : Option Text)
    (ambiguous : Bool)
    → IsKeyed op_key db.operations
    → Holds db k (read_slot db c op)
    → Edits db (record_conflict m c op provider ambiguous db) k (refuted m (read_slot db c op))
unfolding record_conflict
record_conflict-Edits m db k c op provider ambiguous keyed held =
    record_review-Edits db (save_customer (conflicting c) db) k c (conflicting c) op
      (record op { send_fence = some m.fence })
      (if is_original c op provider ambiguous
        then customer_original_key_mismatch
        else customer_identity_conflict)
      keyed held (wrote refl refl) refl refl (record { customer = refl; kind = refl }) refl

pub reviewed-Edits :
    (db : Db) (k : ℕ) (c : Customer) (op : Operation) (reason : ReasonCode)
    → IsKeyed op_key db.operations
    → Holds db k (read_slot db c op)
    → Edits db (record_review op reason db) k (reviewed (read_slot db c op))
reviewed-Edits db k c op reason keyed held =
    record_review-Edits db db k c c op op reason keyed held (left refl refl) refl refl
      (record { customer = refl; kind = refl }) refl

-- An inconclusive read.
pub unread-Advances :
    (t : CustomerTransaction) (m : Moment) (db : Db) (k : ℕ) (c : Customer) (op : Operation)
    → IsKeyed op_key db.operations
    → Holds db k (read_slot db c op)
    → Advances t db (unread m op db).1
unfolding unread
unread-Advances t m db k c op keyed held =
    let s = read_slot db c op in
    elim (Bool-cases (is_pending op.operation_state)) [
      | inl fresh ↦ rw (fresh, unread) (Advances-same t db db keyed refl)
      | inr claimed ↦ elim (Bool-cases (is_past m op.unknown_recovery_deadline_at)) [
        | inl late ↦
            rw (claimed, late, unread)
              (Advances-Edits t db
                (record_review op (external_create_outcome_unknown Kind.customer) db) k s
                (reviewed s) held
                (reviewed-Edits db k c op (external_create_outcome_unknown Kind.customer) keyed
                  held)
                (goes_to_review refl))
        | inr early ↦ elim (Bool-cases (is_reviewed op.operation_state)) [
          | inl resting ↦ rw (claimed, early, resting, unread) (Advances-same t db db keyed refl)
          | inr open_send ↦
              rw (claimed, early, open_send, unread)
                (Advances-Edits t db
                  (save_operation (record op { operation_state = State.unknown }) db) k s
                  (still_unknown s) held
                  (operation_only-Edits db k c op (record op { operation_state = State.unknown })
                    keyed held (record { customer = refl; kind = refl }) refl)
                  (stays_unknown claimed refl))
        ]
      ]
    ]

-- The second transaction meets the same rows.
pub already_bound-Advances :
    (t : CustomerTransaction) (again : Moment) (expected : CustomerOpen) (db : Db) (c : Customer)
    (op : Operation)
    → IsKeyed op_key db.operations
    → Holds db expected.customer_id (read_slot db c op)
    → Advances t db (already_bound again expected db).1
unfolding already_bound
already_bound-Advances t again expected db c op keyed held =
    let k = expected.customer_id in
    let s = read_slot db c op in
    elim (Result-cases (lock_customer again db k)) [
      | inr (e, refused) ↦ rw (refused, already_bound) (Advances-same t db db keyed refl)
      | inl (c', locked) ↦
          let stored = lock_customer-get again db k locked in
          let same : c' ≡ c = some-injective c' c (sym stored ∙ held.customer) in
          let found : customer_operation db c'.customer_id ≡ some op =
            subst (λ i. customer_operation db i ≡ some op)
              (sym (get-key customer_key k db.customers stored)) held.operation in
          rw (locked, found, already_bound)
            (Advances-Edits t db
              (record_review (record op { send_fence = some again.fence })
                (other_reason (codes "customer_provider_id_already_bound"))
                (save_customer (conflicting c') db))
              k s (refuted again s) held
              (subst
                (λ x.
                  Edits db
                    (record_review (record op { send_fence = some again.fence })
                      (other_reason (codes "customer_provider_id_already_bound"))
                      (save_customer (conflicting x) db))
                    k (refuted again s))
                (sym same)
                (record_review-Edits db (save_customer (conflicting c) db) k c (conflicting c) op
                  (record op { send_fence = some again.fence })
                  (other_reason (codes "customer_provider_id_already_bound")) keyed held
                  (wrote refl refl) refl refl (record { customer = refl; kind = refl }) refl))
              (refutes again refl))
    ]

pub bound_rows-Edits :
    (m : Moment) (provider : Text) (db : Db) (k : ℕ) (c : Customer) (op : Operation)
    → IsKeyed op_key db.operations
    → Holds db k (read_slot db c op)
    → Edits db (bound_create_rows m provider c op db) k (identified m provider (read_slot db c op))
unfolding bound_create_rows bound_create recovery_work
bound_rows-Edits m provider db k c op keyed held =
    let id = op.create_operation_id in
    let base =
      save_operation (bound_create m provider c op) (save_customer (bound_slot provider c) db) in
    let (customers, operations, works) = finished_rows db base id (recovery_work db id) refl refl in
    Edits-of db (bound_create_rows m provider c op db) k (read_slot db c op)
      (identified m provider (read_slot db c op)) keyed held (wrote customers refl)
      (wrote operations refl) (record { customer = refl; kind = refl })
      (record { here = works.here; there = works.there })
