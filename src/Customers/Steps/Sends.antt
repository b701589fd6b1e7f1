-- ===== src/Customers/Steps/Sends.antt =====
-- The transactions of a send take the steps of the relation.
use payments_portal.Purchases.Evolution.{op_key}
use payments_portal.Customers.Edits.{
  customer_key, WritesWork, WritesWork-add, recovery_work-key, Edits, Edits-of, WritesWork-put,
  left, wrote,
}
use payments_portal.Store.Tables.{get, IsKeyed, put}
use payments_portal.Customers.Open.{Configuration}
use payments_portal.Customers.Send.{leased_work, send_rows, store_work, sending}
use payments_portal.Store.{
  Db, lock_customer, Moment, Customer, Operation, Work, recovery_work, customer_operation,
  save_operation, billing_busy, no_result_found,
}
use payments_portal.Base.{
  ℕ, ok, Option, ◌≡◌, some, >>=-eq-ok, refl, raise_if, ap, none, ◌∷◌, or_raise-eq-ok, ◌∙◌, sym,
}
use payments_portal.Customers.Slot.{Create, Holds}
use payments_portal.Customers.Steps.{
  Db, Moment, leased_work, Configuration, Work, IsKeyed, op_key, sent,
}

-- The slot that a transaction has read.
abbrev pub read_slot : Db → Customer → Operation → Create
read_slot db c op = record {
  customer = c;
  operation = op;
  work = recovery_work db op.create_operation_id;
}

pub lock_customer-get :
    (m : Moment) (db : Db) (k : ℕ) {c : Customer}
    → lock_customer m db k ≡ ok c
    → get customer_key k db.customers ≡ some c
unfolding lock_customer
lock_customer-get m db k h =
    let (_, _, h1) = >>=-eq-ok (raise_if m.customer_busy billing_busy) _ h in
    or_raise-eq-ok (get customer_key k db.customers) no_result_found h1

pub read_slot-Holds :
    (m : Moment) (db : Db) (k : ℕ) (c : Customer) (op : Operation)
    → lock_customer m db k ≡ ok c
    → customer_operation db k ≡ some op
    → Holds db k (read_slot db c op)
read_slot-Holds m db k c op locked found = record {
  customer = lock_customer-get m db k locked;
  operation = found;
  work = refl;
}

-- The recovery item behind a claim.
pub store_work-WritesWork :
    (db : Db) (id : ℕ) (old : Option Work) (new : Work) (base : Db)
    → base.works ≡ db.works
    → recovery_work db id ≡ old
    → new.coalescing_key ≡ id
    → WritesWork db (store_work old new base) id (some new)
store_work-WritesWork db id none new base same found at_id =
    WritesWork-add db (store_work none new base) id new (ap (λ r. new ∷ r) same) at_id
store_work-WritesWork db id (some old) new base same found at_id =
    WritesWork-put db (store_work (some old) new base) id old new
      (ap (put (λ (w : Work). w.coalescing_key) new) same) found
      (at_id ∙ sym (recovery_work-key db id found))

leased_work-key :
    (m : Moment) (cfg : Configuration) (db : Db) (id : ℕ) (old : Option Work)
    → recovery_work db id ≡ old
    → (leased_work m cfg id old).coalescing_key ≡ id
unfolding leased_work
leased_work-key m cfg db id none found = refl
leased_work-key m cfg db id (some old) found = recovery_work-key db id found

send_rows-tables :
    (m : Moment) (cfg : Configuration) (op : Operation) (old : Option Work) (db : Db)
    → let after =
        store_work old
          (leased_work m cfg op.create_operation_id old)
          (save_operation (sending m op) db) in
      (after.customers ≡ db.customers)
      × (after.operations ≡ put op_key (sending m op) db.operations)
send_rows-tables m cfg op none db = (refl, refl)
send_rows-tables m cfg op (some work) db = (refl, refl)

pub send_rows-Edits :
    (m : Moment) (cfg : Configuration) (db : Db) (k : ℕ) (c : Customer) (op : Operation)
    → IsKeyed op_key db.operations
    → Holds db k (read_slot db c op)
    → Edits db (send_rows m cfg op db) k (sent m cfg (read_slot db c op))
unfolding send_rows
send_rows-Edits m cfg db k c op keyed held =
    let id = op.create_operation_id in
    let old = recovery_work db id in
    let (customers, operations) = send_rows-tables m cfg op old db in
    Edits-of db (send_rows m cfg op db) k (read_slot db c op) (sent m cfg (read_slot db c op)) keyed
      held (left customers refl) (wrote operations refl) (record { customer = refl; kind = refl })
      (store_work-WritesWork db id old (leased_work m cfg id old) (save_operation (sending m op) db)
        refl refl (leased_work-key m cfg db id old refl))
