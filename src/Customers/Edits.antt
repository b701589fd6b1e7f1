-- ===== src/Customers/Edits.antt =====
-- What a transaction on one customer's slot leaves of the tables.
use payments_portal.Purchases.Evolution.{op_key}
use payments_portal.Store.Tables.{IsKeyed, get, put, put-IsKeyed, get-key, get-put_ne, get-put_self}
use payments_portal.Store.{Customer, Db, recovery_work, Operation, customer_operation, Work}
use payments_portal.Base.{
  ℕ, List, Option, ◌≡◌, ◌≢◌, ◌∷◌, some, ◌∙◌, arith, ap, refl, subst, ◌⊎◌, sym, inr, inl, find?,
}
use payments_portal.Customers.Slot.{
  Create, Holds, of_customer, replaced, find?-put_keyed, customer_operation-get, operations_differ,
}

abbrev pub customer_key : Customer → ℕ
customer_key c = c.customer_id

-- The slot of the customer `k` becomes `s'`; the others stay.
pub record Edits (db after : Db) (k : ℕ) (s' : Create) : Type 0 where
  pub keyed : IsKeyed op_key after.operations
  pub here : Holds after k s'
  pub there : (l : ℕ) (r : Create) → l ≢ k → Holds db l r → Holds after l r

-- The recovery item of the operation `id` becomes `w`; the others stay.
pub record WritesWork (db after : Db) (id : ℕ) (w : Option Work) : Type 0 where
  pub here : recovery_work after id ≡ w
  pub there : (i : ℕ) → i ≢ id → recovery_work after i ≡ recovery_work db i

pub WritesWork-same :
    (db after : Db) (id : ℕ) (w : Option Work)
    → after.works ≡ db.works
    → recovery_work db id ≡ w
    → WritesWork db after id w
unfolding recovery_work
WritesWork-same db after id w same found = record {
  here = rw same found;
  there = λ i ne. rw same refl;
}

pub WritesWork-put :
    (db after : Db) (id : ℕ) (old new : Work)
    → after.works ≡ put (λ w. w.coalescing_key) new db.works
    → recovery_work db id ≡ some old
    → new.coalescing_key ≡ old.coalescing_key
    → WritesWork db after id (some new)
unfolding recovery_work
WritesWork-put db after id old new written found same =
    let key = λ (w : Work). w.coalescing_key in
    let at_id : new.coalescing_key ≡ id = same ∙ get-key key id db.works found in
    record {
      here =
          ap (get key id) written
          ∙ subst (λ k. get key k (put key new db.works) ≡ some new) at_id
              (get-put_self key new db.works {old = old}
                (subst (λ k. get key k db.works ≡ some old) (sym at_id) found));
      there =
          λ i ne. ap (get key i) written ∙ get-put_ne key i new db.works (λ e. ne (sym e ∙ at_id));
    }

pub WritesWork-add :
    (db after : Db) (id : ℕ) (new : Work)
    → after.works ≡ new ∷ db.works
    → new.coalescing_key ≡ id
    → WritesWork db after id (some new)
unfolding recovery_work
WritesWork-add db after id new written at_id = record {
  here = rw written (ground arith);
  there = λ i ne. rw written (ground arith);
}

-- The customer's row is left alone or written back, and so is its operation.
pub data Wrote (A : Type 0) (key : A → ℕ) (old new : A) (rows rows' : List A) : Type 0 where
  left : rows' ≡ rows → new ≡ old → Wrote A key old new rows rows'
  wrote : rows' ≡ put key new rows → key new ≡ key old → Wrote A key old new rows rows'

Wrote-get :
    {A : Type 0} (key : A → ℕ) (k : ℕ) (old new : A) (rows rows' : List A)
    → Wrote A key old new rows rows'
    → get key k rows ≡ some old
    → get key k rows' ≡ some new
Wrote-get key k old new rows rows' (left same e) h = rw (same, e) h
Wrote-get key k old new rows rows' (wrote e same) h =
    let at_k : key new ≡ k = same ∙ get-key key k rows h in
    ap (get key k) e
    ∙ subst (λ i. get key i (put key new rows) ≡ some new) at_k
        (get-put_self key new rows {old = old}
          (subst (λ i. get key i rows ≡ some old) (sym at_k) h))

Wrote-get_ne :
    {A : Type 0} (key : A → ℕ) (k l : ℕ) (old new : A) (rows rows' : List A)
    → Wrote A key old new rows rows'
    → get key k rows ≡ some old
    → l ≢ k
    → get key l rows' ≡ get key l rows
Wrote-get_ne key k l old new rows rows' (left same e) h ne = rw same refl
Wrote-get_ne key k l old new rows rows' (wrote e same) h ne =
    ap (get key l) e ∙ get-put_ne key l new rows (λ q. ne (sym q ∙ same ∙ get-key key k rows h))

Wrote-IsKeyed :
    (o new : Operation) (db after : Db)
    → Wrote Operation op_key o new db.operations after.operations
    → get op_key o.create_operation_id db.operations ≡ some o
    → IsKeyed op_key db.operations
    → IsKeyed op_key after.operations
Wrote-IsKeyed o new db after (left same e) h keyed = rw same keyed
Wrote-IsKeyed o new db after (wrote e same) h keyed = rw e (
    put-IsKeyed op_key new db.operations {old = o}
      (subst (λ k. get op_key k db.operations ≡ some o) (sym same) h) keyed)

-- The new operation is of the same customer and kind.
pub record SameOwner (o new : Operation) : Type 0 where
  pub customer : new.customer_id ≡ o.customer_id
  pub kind : new.operation_kind ≡ o.operation_kind

customer_operation-Wrote :
    (db after : Db) (l : ℕ) (o new r : Operation)
    → IsKeyed op_key db.operations
    → Wrote Operation op_key o new db.operations after.operations
    → get op_key o.create_operation_id db.operations ≡ some o
    → SameOwner o new
    → customer_operation db l ≡ some r
    → customer_operation after l ≡ replaced op_key new (some r)
      ⊎ (customer_operation after l ≡ some r × (new ≡ o))
unfolding customer_operation
customer_operation-Wrote db after l o new r keyed (left same e) h own found = inr (rw same found, e)
customer_operation-Wrote db after l o new r keyed (wrote e same) h own found =
    let at_new = subst (λ k. get op_key k db.operations ≡ some o) (sym same) h in
    inl (
      ap (find? (of_customer l)) e
      ∙ find?-put_keyed op_key (of_customer l) new o db.operations keyed at_new
          (ground (arith, own))
      ∙ ap (replaced op_key new) found)

Wrote-key :
    {A : Type 0} (key : A → ℕ) (old new : A) (rows rows' : List A)
    → Wrote A key old new rows rows'
    → key new ≡ key old
Wrote-key key old new rows rows' (left same e) = ap key e
Wrote-key key old new rows rows' (wrote e same) = same

operation_here :
    (db after : Db) (k : ℕ) (o new : Operation)
    → IsKeyed op_key db.operations
    → Wrote Operation op_key o new db.operations after.operations
    → SameOwner o new
    → customer_operation db k ≡ some o
    → customer_operation after k ≡ some new
operation_here db after k o new keyed w own found =
    elim (customer_operation-Wrote db after k o new o keyed w
      (customer_operation-get db k keyed found) own found) [
        | inl e ↦ ground (arith, e, Wrote-key op_key o new db.operations after.operations w)
        | inr (e, same) ↦ rw same e
      ]

operation_there :
    (db after : Db) (k l : ℕ) (o new r : Operation)
    → IsKeyed op_key db.operations
    → Wrote Operation op_key o new db.operations after.operations
    → SameOwner o new
    → customer_operation db k ≡ some o
    → customer_operation db l ≡ some r
    → l ≢ k
    → customer_operation after l ≡ some r
operation_there db after k l o new r keyed w own found other ne =
    let differ = operations_differ db l k keyed other found ne in
    elim (customer_operation-Wrote db after l o new r keyed w
      (customer_operation-get db k keyed found) own other) [
        | inl e ↦ ground (arith, e, differ, Wrote-key op_key o new db.operations after.operations w)
        | inr (e, same) ↦ e
      ]

pub Edits-of :
    (db after : Db) (k : ℕ) (s s' : Create)
    → IsKeyed op_key db.operations
    → Holds db k s
    → Wrote Customer customer_key s.customer s'.customer db.customers after.customers
    → Wrote Operation op_key s.operation s'.operation db.operations after.operations
    → SameOwner s.operation s'.operation
    → WritesWork db after s.operation.create_operation_id s'.work
    → Edits db after k s'
Edits-of db after k s s' keyed held cs os own ws =
    let same_id = Wrote-key op_key s.operation s'.operation db.operations after.operations os in
    record {
      keyed =
          Wrote-IsKeyed s.operation s'.operation db after os
            (customer_operation-get db k keyed held.operation) keyed;
      here = record {
        customer =
            Wrote-get customer_key k s.customer s'.customer db.customers after.customers cs
              held.customer;
        operation = operation_here db after k s.operation s'.operation keyed os own held.operation;
        work = subst (λ i. recovery_work after i ≡ s'.work) (sym same_id) ws.here;
      };
      there = λ l r ne other. record {
        customer =
            Wrote-get_ne customer_key k l s.customer s'.customer db.customers after.customers cs
              held.customer ne
            ∙ other.customer;
        operation =
            operation_there db after k l s.operation s'.operation r.operation keyed os own
              held.operation other.operation ne;
        work =
            ws.there r.operation.create_operation_id
              (operations_differ db l k keyed other.operation held.operation ne)
            ∙ other.work;
      };
    }

pub recovery_work-key :
    (db : Db) (id : ℕ) {w : Work} → recovery_work db id ≡ some w → w.coalescing_key ≡ id
unfolding recovery_work
recovery_work-key db id {w} h = get-key (λ (x : Work). x.coalescing_key) id db.works h
