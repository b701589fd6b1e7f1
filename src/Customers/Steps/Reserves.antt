-- ===== src/Customers/Steps/Reserves.antt =====
-- A reservation adds rows at most: every slot that is there stays as it is.
use payments_portal.Customers.Steps.Claims.{same_pair}
use payments_portal.Customers.Reviews.{recovery_reviews}
use payments_portal.Customers.Run.{CustomerTransaction}
use payments_portal.Customers.Scope.{customer_slot, customer_account, is_text}
use payments_portal.Purchases.Evolution.{op_key}
use payments_portal.Customers.Edits.{customer_key}
use payments_portal.Store.Tables.{get, IsKeyed, get-key}
use payments_portal.Customers.Open.{Configuration, User, CustomerOpen, customer_snapshot}
use payments_portal.Customers.Reserve.{
  breaks_slot, breaks_operation, reserve_slot, reserve_operation, Fresh, new_slot, new_operation,
  reserve_rows, reserve_customer, reserve_customer_in_transaction,
}
use payments_portal.Store.{
  Db, Operation, Customer, customer_operation, kind_eq, Kind, integrity_error,
  billing_legacy_identity_unproven, recovery_work, Moment, Outcome, billing_connection_conflict,
  Work, billing_identity_conflict, lock_user, is_pending,
}
use payments_portal.Base.{
  ℕ, ok, Bool, ◌∙◌, List, any, Text, ◌≡◌, false, ◌==◌, true, some, find?, ◌∷◌, All, Option-cases,
  All-find?, ◌||◌, arith, inr, any-eq-false, text_eq, subst, ◌&&◌, [], refl, inl, find?-holds,
  >>=-eq-ok, raise_if, is_some, check, ap,
}
use payments_portal.Customers.Slot.{of_customer}
use payments_portal.Customers.Steps.{
  Db, Configuration, IsKeyed, op_key, CustomerTransaction, Moment, Advances, Outcome, Work, rests,
  is_pending,
}

-- What is found stays found.
pub record Grows (db after : Db) : Type 0 where
  pub customers :
      (k : ℕ) (c : Customer)
      → get customer_key k db.customers ≡ some c
      → get customer_key k after.customers ≡ some c
  pub operations :
      (k : ℕ) (o : Operation)
      → customer_operation db k ≡ some o
      → customer_operation after k ≡ some o
  pub works : after.works ≡ db.works
  pub keyed : IsKeyed op_key db.operations → IsKeyed op_key after.operations

Grows-refl : (db : Db) → Grows db db
Grows-refl db = record {
  customers = λ k c h. h;
  operations = λ k o h. h;
  works = refl;
  keyed = λ h. h;
}

Grows-trans : (a b c : Db) → Grows a b → Grows b c → Grows a c
Grows-trans a b c g h = record {
  customers = λ k r e. h.customers k r (g.customers k r e);
  operations = λ k o e. h.operations k o (g.operations k o e);
  works = h.works ∙ g.works;
  keyed = λ e. h.keyed (g.keyed e);
}

-- A row that is found does not have what no row has.
found-misses :
    {A : Type 0} (p q : A → Bool) (rows : List A) {a : A}
    → any p rows ≡ false
    → find? q rows ≡ some a
    → p a ≡ false
found-misses p q rows none_has found =
    All-find? (λ r. p r ≡ false) q rows (any-eq-false p rows none_has) found

slot-Grows :
    (new : Customer) (db : Db)
    → breaks_slot new db.customers ≡ false
    → Grows db (record db { customers = new ∷ db.customers })
unfolding breaks_slot customer_operation
slot-Grows new db fits = record {
  customers = λ k c found.
      let other =
        found-misses
          (λ (r : Customer).
            (r.customer_id == new.customer_id)
            || (text_eq r.billing_customer_key new.billing_customer_key
                || (text_eq r.external_billing_account_id new.external_billing_account_id
                    && (r.user_id == new.user_id))))
          (λ r. customer_key r == k) db.customers fits found in
      let at_k = get-key customer_key k db.customers found in ground (arith, other, at_k, found);
  operations = λ k o found. found;
  works = refl;
  keyed = λ h. h;
}

-- A new row at the head of keyed rows.
added-IsKeyed :
    (new : Operation) (all_rows rows : List Operation)
    → any (λ o. o.create_operation_id == new.create_operation_id) rows ≡ false
    → All (λ o. get op_key (op_key o) all_rows ≡ some o) rows
    → All (λ o. get op_key (op_key o) (new ∷ all_rows) ≡ some o) rows
added-IsKeyed new all_rows [] fits keyed = tt
added-IsKeyed new all_rows (o ∷ rows) fits keyed =
    (ground (arith, keyed.0), added-IsKeyed new all_rows rows (ground (arith, fits)) keyed.1)

any-weaker :
    {A : Type 0} (p q : A → Bool) (rows : List A)
    → ((a : A) → p a ≡ true → q a ≡ true)
    → any q rows ≡ false
    → any p rows ≡ false
any-weaker p q [] f h = refl
any-weaker p q (a ∷ rows) f h = ground (arith, f a, any-weaker p q rows f)

operation-Grows :
    (new : Operation) (db : Db)
    → kind_eq new.operation_kind Kind.customer ≡ true
    → breaks_operation new db.operations ≡ false
    → Grows db (record db { operations = new ∷ db.operations })
unfolding breaks_operation customer_operation
operation-Grows new db is_customer fits = record {
  customers = λ k c found. found;
  operations = λ k o found.
      let other =
        found-misses
          (λ (r : Operation).
            (r.create_operation_id == new.create_operation_id)
            || ((r.customer_id == new.customer_id) && kind_eq r.operation_kind Kind.customer))
          (of_customer k) db.operations fits found in
      let owner = find?-holds (of_customer k) db.operations found in
      ground (arith, other, owner, found);
  works = refl;
  keyed = λ h. (
    ground arith,
    added-IsKeyed new db.operations db.operations
        (any-weaker (λ (r : Operation). r.create_operation_id == new.create_operation_id)
          (λ r.
            (r.create_operation_id == new.create_operation_id)
            || ((r.customer_id == new.customer_id) && kind_eq r.operation_kind Kind.customer))
          db.operations (λ a e. ground (arith, e)) fits)
        h,
  );
}

reserve_slot-Grows :
    (cfg : Configuration) (fresh : Fresh) (account : Text) (user_id : ℕ) (db : Db) {c : Customer}
    {after : Db}
    → reserve_slot cfg fresh account user_id db ≡ ok (c, after)
    → Grows db after
unfolding reserve_slot
reserve_slot-Grows cfg fresh account user_id db {c} {after} h =
    let new = new_slot cfg fresh account user_id in
    elim (Option-cases (customer_slot db account user_id)) [
      | inr (old, found) ↦
          let same : db ≡ after = ground (arith, rw (found, reserve_slot) at h) in
          subst (Grows db) same (Grows-refl db)
      | inl nothing ↦
          let (_, fits, e) =
            >>=-eq-ok (raise_if (breaks_slot new db.customers) integrity_error) _
              (rw (nothing, reserve_slot) at h) in
          let same : record db { customers = new ∷ db.customers } ≡ after = ground (arith, e) in
          subst (Grows db) same (slot-Grows new db (ground (arith, fits)))
    ]

reserve_operation-Grows :
    (fresh : Fresh) (c : Customer) (db : Db) {op : Operation} {after : Db}
    → reserve_operation fresh c db ≡ ok (op, after)
    → Grows db after
unfolding reserve_operation
reserve_operation-Grows fresh c db {op} {after} h =
    let new = new_operation fresh c in
    elim (Option-cases (customer_operation db c.customer_id)) [
      | inr (old, found) ↦
          let same : db ≡ after = ground (arith, rw (found, reserve_operation) at h) in
          subst (Grows db) same (Grows-refl db)
      | inl nothing ↦
          let (_, _, e) =
            >>=-eq-ok (raise_if (is_some c.provider_customer_id) billing_legacy_identity_unproven) _
              (rw (nothing, reserve_operation) at h) in
          let (_, fits, e1) =
            >>=-eq-ok (raise_if (breaks_operation new db.operations) integrity_error) _ e in
          let same : record db { operations = new ∷ db.operations } ≡ after = ground (arith, e1) in
          subst (Grows db) same (operation-Grows new db refl (ground (arith, fits)))
    ]

reserve_rows-Grows :
    (scope_busy : Bool) (cfg : Configuration) (fresh : Fresh) (user_id : ℕ) (db : Db) {c : Customer}
    {op : Operation} {after : Db}
    → reserve_rows scope_busy cfg fresh user_id db ≡ ok (c, op, after)
    → Grows db after
unfolding reserve_rows
reserve_rows-Grows scope_busy cfg fresh user_id db {c} {op} {after} h =
    let (account, _, h1) = >>=-eq-ok (customer_account scope_busy cfg user_id db) _ h in
    let ((c1, db1), slot, h2) = >>=-eq-ok (reserve_slot cfg fresh account user_id db) _ h1 in
    let (_, _, h3) =
      >>=-eq-ok
        (check (is_text cfg.lbx_provider_origin c1.provider_origin) billing_connection_conflict) _
        h2 in
    let ((op1, db2), create, h4) = >>=-eq-ok (reserve_operation fresh c1 db1) _ h3 in
    let (_, _, h5) =
      >>=-eq-ok
        (check (text_eq op1.request_correlation_key c1.billing_customer_key)
          billing_identity_conflict)
        _ h4 in
    let same : db2 ≡ after = ground (arith, h5) in
    subst (Grows db) same (
      Grows-trans db db1 db2 (reserve_slot-Grows cfg fresh account user_id db slot)
        (reserve_operation-Grows fresh c1 db1 create))

pub reserve_customer-Grows :
    (m : Moment) (scope_busy : Bool) (cfg : Configuration) (fresh : Fresh) (session : Outcome User)
    (db : Db) {seen : CustomerOpen} {after : Db}
    → reserve_customer m scope_busy cfg fresh session db ≡ ok (seen, after)
    → Grows db after
unfolding reserve_customer reserve_customer_in_transaction
reserve_customer-Grows m scope_busy cfg fresh session db {seen} {after} h =
    let (user, _, h1) = >>=-eq-ok session _ h in
    let (_, _, h2) = >>=-eq-ok (lock_user m) _ h1 in
    let ((c, op, next), rows, h3) =
      >>=-eq-ok (reserve_rows scope_busy cfg fresh user.user_id db) _ h2 in
    let (_, _, h4) = >>=-eq-ok (recovery_reviews next c op) _ h3 in
    let (x, _, h5) =
      >>=-eq-ok (customer_snapshot c op (some user) (is_pending op.operation_state)) _ h4 in
    let (_, same) = same_pair x seen next after h5 in
    subst (Grows db) same (reserve_rows-Grows scope_busy cfg fresh user.user_id db rows)

pub Advances-Grows :
    (t : CustomerTransaction) (db after : Db)
    → IsKeyed op_key db.operations
    → Grows db after
    → Advances t db after
unfolding recovery_work
Advances-Grows t db after keyed g = record {
  keyed = g.keyed keyed;
  step = λ k s held. (
    s,
    record {
      customer = g.customers k s.customer held.customer;
      operation = g.operations k s.operation held.operation;
      work =
          ap (get (λ (w : Work). w.coalescing_key) s.operation.create_operation_id) g.works
          ∙ held.work;
    },
    rests refl,
  );
}
