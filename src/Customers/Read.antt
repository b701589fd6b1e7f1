-- ===== src/Customers/Read.antt =====
-- `apply_customer_read` and `recheck_widget_session` of apps/api/app/domains/billing/customers.py: a
-- point read is applied under its fence, and a conflict is recorded although the call is refused.
pub mod Binds
pub mod Returns
use payments_portal.Customers.Reviews.{
  record_conflict, conflicting, record_review, recovery_reviews, admission_reviews,
}
use payments_portal.Customers.Scope.{is_text}
use payments_portal.Customers.Ends.{save_finished}
use payments_portal.Store.{
  Operation, Customer, Moment, Db, Binding, State, ReviewCase, Outcome, is_bound_customer,
  lock_customer, is_pending, recovery_work, billing_identity_conflict, lock_user,
  billing_customer_pending, save_operation, save_customer, customer_operation,
  billing_customer_review, is_bound, external_create_outcome_unknown, other_reason, Kind,
  billing_identity_unproven, is_reviewed,
}
use payments_portal.Base.{
  opt_text_eq, ℕ, some, ◌>>◌, ◌>>=◌, Text, Option, Bool, List, none, ◌==◌, text_eq, ◌||◌, false,
  if◌then◌else◌, map, any, err, ◌&&◌, is_some, leb, not, ok, or_raise, opt_eq, is_none, check,
  raise_if, codes,
}
use payments_portal.Customers.Open.{CustomerOpen, customer_snapshot, User}

-- The first two tests.
abbrev pub read_current : CustomerOpen → Operation → Bool
read_current expected op =
    (op.create_operation_id == expected.operation_id) && opt_eq op.send_fence expected.fence

abbrev pub keys_fit : CustomerOpen → Customer → Operation → Bool
keys_fit expected c op =
    text_eq c.billing_customer_key expected.outer_key
    && text_eq op.request_correlation_key expected.outer_key

-- `conflict`
unfoldable pub conflicts_with : Customer → Option Text → Option Text → Bool → Bool
conflicts_with c provider outer_key ambiguous =
    ambiguous
    || (is_some provider
        && (not (opt_text_eq outer_key (some c.billing_customer_key))
            || not (is_none c.provider_customer_id || opt_text_eq c.provider_customer_id provider)))

abbrev pub is_past : Moment → Option ℕ → Bool
is_past m none = false
is_past m (some deadline) = leb deadline m.now

-- An inconclusive read: what the call then raises, and the tables behind its commit.
unfoldable pub unread : Moment → Operation → Db → Outcome CustomerOpen × Db
unread m op db =
    if is_pending op.operation_state
    then (err billing_customer_pending, db)
    else if is_past m op.unknown_recovery_deadline_at
    then (
      err billing_customer_review,
      record_review op (external_create_outcome_unknown Kind.customer) db,
    )
    else if is_reviewed op.operation_state
    then (err billing_customer_review, db)
    else (
      err billing_customer_pending,
      save_operation (record op { operation_state = State.unknown }) db,
    )

abbrev pub bound_slot : Text → Customer → Customer
bound_slot provider c = record c {
  provider_customer_id = some provider;
  binding_state = Binding.bound;
}

abbrev pub is_already_bound : Text → Customer → Operation → Bool
is_already_bound provider c op =
    is_bound_customer c.binding_state
    && (opt_text_eq c.provider_customer_id (some provider) && is_bound op.operation_state)

abbrev or_now : Option ℕ → ℕ → Option ℕ
or_now none now = some now
or_now (some at) now = some at

unfoldable pub bound_create : Moment → Text → Customer → Operation → Operation
bound_create m provider c op = record op {
  operation_state = State.bound;
  bound_external_object_id = some provider;
  resolved_at = or_now op.resolved_at m.now;
  send_fence = if is_already_bound provider c op then op.send_fence else some m.fence;
}

-- The open reviews of the operation are resolved; nothing reads the resolution's document.
abbrev pub resolved : Moment → ℕ → ReviewCase → ReviewCase
resolved m id r =
    if r.is_open && (r.scope_reference == id)
    then record r { is_open = false; resolved_at = some m.now }
    else r

abbrev resolve_reviews : Moment → ℕ → Db → Db
resolve_reviews m id db = record db { reviews = map (resolved m id) db.reviews }

unfoldable pub bound_create_rows : Moment → Text → Customer → Operation → Db → Db
bound_create_rows m provider c op db = resolve_reviews m op.create_operation_id (
    save_finished (recovery_work db op.create_operation_id)
      (save_operation (bound_create m provider c op) (save_customer (bound_slot provider c) db)))

-- The unique constraint `uq_billing_customers_provider`, checked at the commit.
unfoldable pub breaks_provider : Customer → Text → List Customer → Bool
breaks_provider c provider rows =
    any
      (λ r.
        not (r.customer_id == c.customer_id)
        && (text_eq r.external_billing_account_id c.external_billing_account_id
            && is_text provider r.provider_customer_id))
      rows

-- The second transaction, on a broken constraint.
unfoldable pub already_bound : Moment → CustomerOpen → Db → Outcome CustomerOpen × Db
already_bound m expected db = elim (lock_customer m db expected.customer_id) [
  | err e ↦ (err e, db)
  | ok c ↦
      let marked = save_customer (conflicting c) db in
      (
        err billing_identity_conflict,
        elim (customer_operation db c.customer_id) [
          | none ↦ marked
          | some op ↦
              record_review (record op { send_fence = some m.fence })
                (other_reason (codes "customer_provider_id_already_bound")) marked
        ],
      )
]

-- The binding: its snapshot may be refused, and its commit may break the constraint.
unfoldable pub bind_customer :
    Moment → Moment → CustomerOpen → Text → Customer → Operation → Db → Outcome CustomerOpen × Db
bind_customer m again expected provider c op db =
    elim (customer_snapshot (bound_slot provider c) (bound_create m provider c op) none false) [
      | err e ↦ (err e, db)
      | ok seen ↦
          if breaks_provider c provider db.customers
          then already_bound again expected db
          else (ok seen, bound_create_rows m provider c op db)
    ]

-- The checks before the first assignment.
unfoldable pub admit_read :
    Moment → CustomerOpen → Option Text → Option Text → Db → Outcome (Customer × Operation)
admit_read m expected provider outer_key db = do
  c ← lock_customer m db expected.customer_id
  op ← or_raise (customer_operation db c.customer_id) billing_customer_pending
  check (read_current expected op) billing_customer_pending
  check (keys_fit expected c op) billing_identity_conflict
  reviews ← recovery_reviews db c op
  raise_if (is_some provider && is_none outer_key) billing_identity_unproven
  ok (c, op)

-- What a read does with the rows.
unfoldable pub read_rows :
    Moment
    → Moment
    → CustomerOpen
    → Option Text
    → Option Text
    → Bool
    → Customer
    → Operation
    → Db
    → Outcome CustomerOpen × Db
read_rows m again expected provider outer_key ambiguous c op db =
    if conflicts_with c provider outer_key ambiguous
    then (err billing_identity_conflict, record_conflict m c op provider ambiguous db)
    else (elim provider [
      | none ↦ unread m op db
      | some id ↦ bind_customer m again expected id c op db
    ])

-- `apply_customer_read`: what it raises or returns, and the tables behind it. `again` is the moment
-- of the second transaction.
unfoldable pub apply_customer_read :
    Moment
    → Moment
    → CustomerOpen
    → Option Text
    → Option Text
    → Bool
    → Db
    → Outcome CustomerOpen × Db
apply_customer_read m again expected provider outer_key ambiguous db =
    elim (admit_read m expected provider outer_key db) [
      | err e ↦ (err e, db)
      | ok (c, op) ↦ read_rows m again expected provider outer_key ambiguous c op db
    ]

-- The tests of `recheck_widget_session`.
unfoldable pub session_fits : ℕ → CustomerOpen → Customer → Operation → Bool
session_fits user_id expected c op =
    ((c.user_id == user_id) && is_bound_customer c.binding_state)
    && ((opt_text_eq c.provider_customer_id expected.provider_id
          && text_eq c.billing_customer_key expected.outer_key)
        && (opt_eq op.send_fence expected.fence
            && (text_eq op.request_correlation_key expected.outer_key
                && is_bound op.operation_state)))

-- `recheck_widget_session`
unfoldable pub recheck_widget_session :
    Moment → Outcome User → CustomerOpen → Db → Outcome (Unit {0})
recheck_widget_session m session expected db = do
  user ← session
  lock_user m
  c ← lock_customer m db expected.customer_id
  op ← or_raise (customer_operation db c.customer_id) billing_identity_conflict
  check (session_fits user.user_id expected c op) billing_identity_conflict
  admission_reviews db c op
