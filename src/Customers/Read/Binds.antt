-- ===== src/Customers/Read/Binds.antt =====
-- A read that returns has bound the customer.
use payments_portal.Customers.Steps.Reads.{bound_rows-Edits}
use payments_portal.Customers.Steps.Sends.{read_slot}
use payments_portal.Customers.Steps.Applies.{read_run, conflict_free, ReadRun}
use payments_portal.Customers.Steps.{identified}
use payments_portal.Purchases.Evolution.{op_key}
use payments_portal.Store.Tables.{IsKeyed}
use payments_portal.Customers.Open.{CustomerOpen}
use payments_portal.Customers.Read.{
  bind_customer, apply_customer_read, CustomerOpen, Operation, read_rows, Db, admit_read,
  conflicts_with,
}
use payments_portal.Store.{Customer, Moment, Operation, Db}
use payments_portal.Base.{
  ok, refl, Text, Option, ◌≡◌, Bool, some, false, Result-cases, ap, All, none, ◌⊎◌, inr, Bool-cases,
  inl, sym, ◌∙◌, subst,
}
use payments_portal.Customers.Slot.{Create, Holds}
use payments_portal.Customers.Read.Returns.{
  IsOwn, unshared_rows, unread_refuses, binding_returns, conflict_refuses, absurd_outcome,
  admitted_read, refused_read,
}

-- What a read that returns proves of the tables before and after it.
pub record BindsCustomer (m : Moment) (expected : CustomerOpen) (provider outer_key : Option Text)
    (db : Db) (seen : CustomerOpen) (after : Db) : Type 0 where
  pub identity : Text
  pub slot : Create
  pub point_read : (provider ≡ some identity) × (outer_key ≡ some expected.outer_key)
  pub stored : Holds db expected.customer_id slot
  pub was_current : slot.operation.send_fence ≡ expected.fence
  pub was_free :
      (slot.customer.provider_customer_id ≡ none)
      ⊎ (slot.customer.provider_customer_id ≡ some identity)
  pub own : All (IsOwn slot.customer identity) db.customers
  pub now_stored : Holds after expected.customer_id (identified m identity slot)
  pub shows : (seen.provider_id ≡ some identity) × (seen.may_create ≡ false)

bind_customer-Binds :
    (m again : Moment) (expected : CustomerOpen) (id : Text) (outer_key : Option Text)
    (ambiguous : Bool) (db : Db) (c : Customer) (op : Operation) {seen : CustomerOpen} {after : Db}
    → IsKeyed op_key db.operations
    → ReadRun m expected (some id) outer_key db c op
    → conflicts_with c (some id) outer_key ambiguous ≡ false
    → bind_customer m again expected id c op db ≡ (ok seen, after)
    → BindsCustomer m expected (some id) outer_key db seen after
bind_customer-Binds m again expected id outer_key ambiguous db c op {seen} {after} keyed r free h =
    let (unique, written, shows, silent) = binding_returns m again expected id c op db h in
    let (_, same_key, slot_free) = conflict_free c id outer_key ambiguous free in
    record {
      identity = id;
      slot = read_slot db c op;
      point_read = (refl, same_key ∙ ap (λ x. some x) r.keys.0);
      stored = r.held;
      was_current = r.current;
      was_free = slot_free;
      own = unshared_rows c id db.customers unique;
      now_stored =
          subst (λ d. Holds d expected.customer_id (identified m id (read_slot db c op)))
            (sym written) (bound_rows-Edits m id db expected.customer_id c op keyed r.held).here;
      shows = (shows, silent);
    }

read_rows-Binds :
    (m again : Moment) (expected : CustomerOpen) (provider outer_key : Option Text)
    (ambiguous : Bool) (db : Db) (c : Customer) (op : Operation) {seen : CustomerOpen} {after : Db}
    → IsKeyed op_key db.operations
    → ReadRun m expected provider outer_key db c op
    → conflicts_with c provider outer_key ambiguous ≡ false
    → read_rows m again expected provider outer_key ambiguous c op db ≡ (ok seen, after)
    → BindsCustomer m expected provider outer_key db seen after
unfolding read_rows
read_rows-Binds m again expected none outer_key ambiguous db c op {seen} {after} keyed r free h =
    unread_refuses m op db (rw (free, read_rows) at h)
read_rows-Binds m again expected (some id) outer_key ambiguous db c op {seen} {after} keyed r free
      h =
    bind_customer-Binds m again expected id outer_key ambiguous db c op keyed r free
      (rw (free, read_rows) at h)

admitted-Binds :
    (m again : Moment) (expected : CustomerOpen) (provider outer_key : Option Text)
    (ambiguous : Bool) (db : Db) (c : Customer) (op : Operation) {seen : CustomerOpen} {after : Db}
    → IsKeyed op_key db.operations
    → ReadRun m expected provider outer_key db c op
    → read_rows m again expected provider outer_key ambiguous c op db ≡ (ok seen, after)
    → BindsCustomer m expected provider outer_key db seen after
admitted-Binds m again expected provider outer_key ambiguous db c op {seen} {after} keyed r h =
    elim (Bool-cases (conflicts_with c provider outer_key ambiguous)) [
      | inl conflict ↦
          absurd_outcome h
            (conflict_refuses m again expected provider outer_key ambiguous db c op conflict)
      | inr free ↦
          read_rows-Binds m again expected provider outer_key ambiguous db c op keyed r free h
    ]

-- Where operations are stored under their identities: a read returns only where a point read has
-- given one identity with the customer's own key, under the operation's fence, for a slot that was
-- free or had this identity, which no other customer of the account had; the slot and its create
-- are then bound to it.
pub apply_customer_read-Binds :
    (m again : Moment) (expected : CustomerOpen) (provider outer_key : Option Text)
    (ambiguous : Bool) (db : Db) {seen : CustomerOpen} {after : Db}
    → IsKeyed op_key db.operations
    → apply_customer_read m again expected provider outer_key ambiguous db ≡ (ok seen, after)
    → BindsCustomer m expected provider outer_key db seen after
apply_customer_read-Binds m again expected provider outer_key ambiguous db {seen} {after} keyed h =
    elim (Result-cases (admit_read m expected provider outer_key db)) [
      | inr (e, refused) ↦
          absurd_outcome h (refused_read m again expected provider outer_key ambiguous db e refused)
      | inl ((c, op), admitted) ↦
          admitted-Binds m again expected provider outer_key ambiguous db c op keyed
            (read_run m expected provider outer_key db admitted)
            (sym (admitted_read m again expected provider outer_key ambiguous db c op admitted) ∙ h)
    ]
