-- ===== src/Customers/Slot.antt =====
-- One customer's slot: its row, its create operation and the recovery item of that, and how the
-- transactions look each other's slots up.
use payments_portal.Purchases.Evolution.{op_key}
use payments_portal.Store.Tables.{get, IsKeyed, put}
use payments_portal.Store.{
  Customer, Db, Operation, customer_operation, Work, recovery_work, kind_eq, Kind,
}
use payments_portal.Base.{
  ℕ, Option, Bool, List, ◌==◌, ◌≡◌, some, All, ◌&&◌, true, if◌then◌else◌, find?, find?-holds,
  All-find?, ◌≢◌, ◌∷◌, none, some-injective, ap, sym, ◌∙◌, arith, ==_iff, [], refl,
}

pub record Create : Type 0 where
  pub customer : Customer
  pub operation : Operation
  pub work : Option Work

-- The tables hold the slot of the customer `k`.
pub record Holds (db : Db) (k : ℕ) (s : Create) : Type 0 where
  pub customer : get (λ c. c.customer_id) k db.customers ≡ some s.customer
  pub operation : customer_operation db k ≡ some s.operation
  pub work : recovery_work db s.operation.create_operation_id ≡ s.work

abbrev pub of_customer : ℕ → Operation → Bool
of_customer k o = (o.customer_id == k) && kind_eq o.operation_kind Kind.customer

pub customer_operation-owner :
    (db : Db) (k : ℕ) {o : Operation} → customer_operation db k ≡ some o → of_customer k o ≡ true
unfolding customer_operation
customer_operation-owner db k {o} h = find?-holds (of_customer k) db.operations h

pub customer_operation-get :
    (db : Db) (k : ℕ) {o : Operation}
    → IsKeyed op_key db.operations
    → customer_operation db k ≡ some o
    → get op_key o.create_operation_id db.operations ≡ some o
unfolding customer_operation
customer_operation-get db k {o} keyed h =
    All-find? (λ (r : Operation). get op_key r.create_operation_id db.operations ≡ some r)
      (of_customer k) db.operations keyed h

-- Two customers have different operations.
pub operations_differ :
    (db : Db) (k l : ℕ) {o p : Operation}
    → IsKeyed op_key db.operations
    → customer_operation db k ≡ some o
    → customer_operation db l ≡ some p
    → k ≢ l
    → o.create_operation_id ≢ p.create_operation_id
operations_differ db k l {o} {p} keyed h g ne same =
    let stored_o = customer_operation-get db k keyed h in
    let stored_p = customer_operation-get db l keyed g in
    let one : o ≡ p =
      some-injective o p (sym stored_o ∙ ap (λ i. get op_key i db.operations) same ∙ stored_p) in
    let owner_o = customer_operation-owner db k h in
    let owner_p = customer_operation-owner db l g in
    ne (ground (arith, ap (λ (r : Operation). r.customer_id) one, owner_o, owner_p))

-- The row found by a test, behind a `put` that keeps what the test reads.
module _ {Row : Type 0} (key : Row → ℕ) where
  abbrev pub replaced : Row → Option Row → Option Row
  replaced new none = none
  replaced new (some r) = if key r == key new then some new else some r

  find?-put :
      (p : Row → Bool) (new : Row) (rows : List Row)
      → All (λ r. (key r == key new) ≡ true → p r ≡ p new) rows
      → find? p (put key new rows) ≡ replaced new (find? p rows)
  find?-put p new [] h = refl
  find?-put p new (r ∷ rows) h = ground (arith, h.0, find?-put p new rows h.1)

  keyed_rows :
      (new old : Row) (all_rows rows : List Row) (p : Row → Bool)
      → All (λ r. get key (key r) all_rows ≡ some r) rows
      → get key (key new) all_rows ≡ some old
      → p old ≡ p new
      → All (λ r. (key r == key new) ≡ true → p r ≡ p new) rows
  keyed_rows new old all_rows [] p keyed h e = tt
  keyed_rows new old all_rows (r ∷ rows) p keyed h e = (
    λ same.
        ap p (
          some-injective r old
            (sym keyed.0 ∙ ap (λ k. get key k all_rows) ((==_iff (key r) (key new)).0 same) ∙ h))
        ∙ e,
    keyed_rows new old all_rows rows p keyed.1 h e,
  )

  pub find?-put_keyed :
      (p : Row → Bool) (new old : Row) (rows : List Row)
      → IsKeyed key rows
      → get key (key new) rows ≡ some old
      → p old ≡ p new
      → find? p (put key new rows) ≡ replaced new (find? p rows)
  find?-put_keyed p new old rows keyed h e =
      find?-put p new rows (keyed_rows new old rows rows p keyed h e)
