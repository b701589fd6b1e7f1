-- ===== src/Customers/Send.antt =====
-- The send of a customer create (apps/api/app/domains/billing/customers.py): `claim_customer_send`
-- and `record_customer_receipt`.
use payments_portal.Customers.Reviews.{admission_reviews}
use payments_portal.Customers.Scope.{is_text}
use payments_portal.Base.Int.{ℤ, pos, negsuc}
use payments_portal.Store.{
  Customer, Moment, State, Work, Operation, null, Db, Outcome, WorkState, recovery_work, save_work,
  save_operation, text, lock_user, billing_identity_unproven, lock_customer, customer_operation,
  billing_identity_conflict, billing_customer_pending,
}
use payments_portal.Base.{
  ℕ, some, ◌>>◌, Option, Bool, if◌then◌else◌, ◌==◌, is_some, false, ◌+◌, ◌∷◌, true, none, ok,
  opt_eq, ◌&&◌, some_and, ltb, text_eq, ◌>>=◌, ◌^◌, str, err, ◌||◌, check, not, or_raise, none_or,
}
use payments_portal.Customers.Open.{
  CustomerOpen, Configuration, customer_receipt_schema, User, receipt_id, customer_snapshot,
  recovery_window,
}

-- The tests of a claim on the two rows.
unfoldable pub claim_fits : Configuration → ℕ → CustomerOpen → Customer → Operation → Bool
claim_fits cfg user_id expected c op =
    ((c.user_id == user_id) && is_text cfg.lbx_provider_origin c.provider_origin)
    && (text_eq c.billing_customer_key expected.outer_key
        && ((op.create_operation_id == expected.operation_id)
            && text_eq op.request_correlation_key expected.outer_key))

-- `customer.provider_customer_id is not None or _receipt_id(operation) is not None`
unfoldable pub has_identity : Customer → Operation → Outcome Bool
has_identity c op =
    if is_some c.provider_customer_id
    then ok true
    else (receipt_id op >>= λ receipt. ok (is_some receipt))

-- An active send's lease runs.
abbrev pub is_leased : ℕ → Option Work → Bool
is_leased now none = false
is_leased now (some work) = some_and (λ at. ltb now at) work.lease_expires_at

-- The operation's columns of a claim.
abbrev pub sending : Moment → Operation → Operation
sending m op = record op {
  send_fence = some m.fence;
  operation_state = State.possible_send;
  unknown_since = some m.now;
  unknown_recovery_deadline_at = some (m.now + recovery_window);
}

-- The recovery item of a claim, which carries the send's lease.
unfoldable pub leased_work : Moment → Configuration → ℕ → Option Work → Work
leased_work m cfg id none = record {
  coalescing_key = id;
  candidate_id = null;
  last_failure = none;
  next_attempt_at = m.now + recovery_window;
  active_recovery_deadline_at = none;
  work_state = WorkState.pending;
  attempt_count = 1;
  lease_owner = some m.fence;
  lease_expires_at = some (m.now + cfg.send_lease);
  last_error_classification = none;
  last_failed_create = none;
}
leased_work m cfg id (some work) = record work {
  next_attempt_at = m.now + recovery_window;
  work_state = WorkState.pending;
  attempt_count = work.attempt_count + 1;
  lease_owner = some m.fence;
  lease_expires_at = some (m.now + cfg.send_lease);
}

-- A loaded row is written back, a new one added.
abbrev pub store_work : Option Work → Work → Db → Db
store_work none new db = record db { works = new ∷ db.works }
store_work (some work) new db = save_work new db

unfoldable pub send_rows : Moment → Configuration → Operation → Db → Db
send_rows m cfg op db =
    let work = recovery_work db op.create_operation_id in
    store_work work (leased_work m cfg op.create_operation_id work)
      (save_operation (sending m op) db)

abbrev pub shown_only : Customer → Operation → Db → Outcome (CustomerOpen × Db)
shown_only c op db = customer_snapshot c op none false >>= λ seen. ok (seen, db)

abbrev pub shown_sending :
    Moment → Configuration → User → Customer → Operation → Db → Outcome (CustomerOpen × Db)
shown_sending m cfg user c op db =
    customer_snapshot c (sending m op) (some user) true >>= λ seen. ok (seen, send_rows m cfg op db)

-- What a claim does with the rows once it has admitted the customer.
unfoldable pub send_or_show :
    Moment
    → Configuration
    → User
    → CustomerOpen
    → Customer
    → Operation
    → Db
    → Outcome (CustomerOpen × Db)
send_or_show m cfg user expected c op db = do
  known ← has_identity c op
  let kept =
      known
      || (not (opt_eq op.send_fence expected.fence)
          || is_leased m.now (recovery_work db op.create_operation_id))
  if kept then shown_only c op db else shown_sending m cfg user c op db

-- `claim_customer_send`
unfoldable pub claim_customer_send :
    Moment → Configuration → Outcome User → CustomerOpen → Db → Outcome (CustomerOpen × Db)
claim_customer_send m cfg session expected db = do
  user ← session
  lock_user m
  c ← lock_customer m db expected.customer_id
  op ← or_raise (customer_operation db c.customer_id) billing_identity_conflict
  check (claim_fits cfg user.user_id expected c op) billing_identity_conflict
  admission_reviews db c op
  send_or_show m cfg user expected c op db

-- The rows are those of the caller's snapshot, under its fence.
unfoldable pub fence_fits : CustomerOpen → Customer → Operation → Bool
fence_fits expected c op =
    ((is_some expected.fence && opt_eq op.send_fence expected.fence)
      && (op.create_operation_id == expected.operation_id))
    && (text_eq c.billing_customer_key expected.outer_key
        && text_eq op.request_correlation_key expected.outer_key)

-- `type(provider_id) is int and 0 < provider_id < 10**20`
unfoldable pub customer_number : ℤ → Outcome ℕ
customer_number (pos n) = if ltb 0 n && ltb n (10 ^ 20) then ok n else err billing_identity_unproven
customer_number (negsuc n) = err billing_identity_unproven

unfoldable pub has_sent : State → Bool
has_sent State.possible_send = true
has_sent State.unknown = true
has_sent State.manual_review = true
has_sent _ = false

abbrev pub with_receipt : ℕ → Operation → Operation
with_receipt provider op = record op {
  recovery_hint_schema_version = some customer_receipt_schema;
  recovery_hint_document = some (record {
    request = none;
    purchase_intent_id = none;
    accepted_fingerprint = none;
    provider_customer_candidate_id = text (str provider);
  });
}

-- `record_customer_receipt`
unfoldable pub record_customer_receipt :
    Moment → CustomerOpen → ℤ → Db → Outcome (CustomerOpen × Db)
record_customer_receipt m expected provider_id db = do
  provider ← customer_number provider_id
  c ← lock_customer m db expected.customer_id
  op ← or_raise (customer_operation db expected.customer_id) billing_customer_pending
  check (expected.may_create && (fence_fits expected c op && has_sent op.operation_state))
      billing_customer_pending
  previous ← receipt_id op
  check (none_or (λ t. text_eq t (str provider)) previous) billing_identity_conflict
  seen ← customer_snapshot c (with_receipt provider op) none false
  ok (seen, save_operation (with_receipt provider op) db)
