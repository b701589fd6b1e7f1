-- ===== src/Customers/Reserve.antt =====
-- `reserve_customer` and `reserve_customer_in_transaction` of
-- apps/api/app/domains/billing/customers.py: the account's slot and its one create operation.
use payments_portal.Customers.Reviews.{recovery_reviews}
use payments_portal.Customers.Scope.{customer_slot, customer_account, is_text}
use payments_portal.Store.{
  Customer, Operation, Moment, Db, Kind, Outcome, Binding, State, customer_operation,
  integrity_error, kind_eq, billing_legacy_identity_unproven, lock_user, is_pending,
  billing_connection_conflict, billing_identity_conflict,
}
use payments_portal.Base.{
  ◌>>=◌, ℕ, some, ◌>>◌, Text, Bool, List, none, any, ◌==◌, ok, ◌||◌, raise_if, text_eq, ◌&&◌,
  is_some, ◌∷◌, check,
}
use payments_portal.Customers.Open.{CustomerOpen, Configuration, User, customer_snapshot}

-- The values of `uuid4()` and `secrets.token_urlsafe(32)`, for the rows that may be added.
pub record Fresh : Type 0 where
  pub customer_id : ℕ
  pub operation_id : ℕ
  pub billing_customer_key : Text

-- The primary key and the two unique constraints of `external_billing_customers` that a new slot
-- could break: its identity is not known yet.
unfoldable pub breaks_slot : Customer → List Customer → Bool
breaks_slot new rows =
    any
      (λ c.
        (c.customer_id == new.customer_id)
        || (text_eq c.billing_customer_key new.billing_customer_key
            || (text_eq c.external_billing_account_id new.external_billing_account_id
                && (c.user_id == new.user_id))))
      rows

abbrev pub new_slot : Configuration → Fresh → Text → ℕ → Customer
new_slot cfg fresh account user_id = record {
  customer_id = fresh.customer_id;
  user_id = user_id;
  external_billing_account_id = account;
  provider_origin = some cfg.lbx_provider_origin;
  billing_customer_key = fresh.billing_customer_key;
  provider_customer_id = none;
  binding_state = Binding.unbound;
}

-- The slot, found or added and flushed.
unfoldable pub reserve_slot : Configuration → Fresh → Text → ℕ → Db → Outcome (Customer × Db)
reserve_slot cfg fresh account user_id db = elim (customer_slot db account user_id) [
  | some c ↦ ok (c, db)
  | none ↦
      let new = new_slot cfg fresh account user_id in
      raise_if (breaks_slot new db.customers) integrity_error
      >> ok (new, record db { customers = new ∷ db.customers })
]

-- The primary key of the operations, and the unique index on a customer's own create.
unfoldable pub breaks_operation : Operation → List Operation → Bool
breaks_operation new rows =
    any
      (λ o.
        (o.create_operation_id == new.create_operation_id)
        || ((o.customer_id == new.customer_id) && kind_eq o.operation_kind Kind.customer))
      rows

abbrev pub new_operation : Fresh → Customer → Operation
new_operation fresh c = record {
  create_operation_id = fresh.operation_id;
  operation_kind = Kind.customer;
  customer_id = c.customer_id;
  external_billing_account_id = none;
  purchase_intent_id = none;
  request_correlation_key = c.billing_customer_key;
  operation_state = State.pending;
  send_fence = none;
  bound_external_object_id = none;
  unknown_since = none;
  unknown_recovery_deadline_at = none;
  recovery_hint_schema_version = none;
  recovery_hint_document = none;
  resolved_at = none;
}

-- The operation, found or added and flushed.
unfoldable pub reserve_operation : Fresh → Customer → Db → Outcome (Operation × Db)
reserve_operation fresh c db = elim (customer_operation db c.customer_id) [
  | some op ↦ ok (op, db)
  | none ↦
      let new = new_operation fresh c in
      raise_if (is_some c.provider_customer_id) billing_legacy_identity_unproven
      >> (raise_if (breaks_operation new db.operations) integrity_error
          >> ok (new, record db { operations = new ∷ db.operations }))
]

-- The slot and the operation, past the checks of origin and key.
unfoldable pub reserve_rows :
    Bool → Configuration → Fresh → ℕ → Db → Outcome (Customer × Operation × Db)
reserve_rows scope_busy cfg fresh user_id db = do
  account ← customer_account scope_busy cfg user_id db
  (c, db1) ← reserve_slot cfg fresh account user_id db
  check (is_text cfg.lbx_provider_origin c.provider_origin) billing_connection_conflict
  (op, db2) ← reserve_operation fresh c db1
  check (text_eq op.request_correlation_key c.billing_customer_key) billing_identity_conflict
  ok (c, op, db2)

-- `reserve_customer_in_transaction`
unfoldable pub reserve_customer_in_transaction :
    Bool → Configuration → Fresh → User → Db → Outcome (CustomerOpen × Db)
reserve_customer_in_transaction scope_busy cfg fresh user db = do
  (c, op, after) ← reserve_rows scope_busy cfg fresh user.user_id db
  reviews ← recovery_reviews after c op
  open_slot ← customer_snapshot c op (some user) (is_pending op.operation_state)
  ok (open_slot, after)

-- `reserve_customer`: `session` is what `authenticate` makes of the token, the user's row as it is
-- read again under its lock, or a refusal.
unfoldable pub reserve_customer :
    Moment → Bool → Configuration → Fresh → Outcome User → Db → Outcome (CustomerOpen × Db)
reserve_customer m scope_busy cfg fresh session db = do
  user ← session
  lock_user m
  reserve_customer_in_transaction scope_busy cfg fresh user db
