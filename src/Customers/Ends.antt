-- ===== src/Customers/Ends.antt =====
-- The end of a customer's send (apps/api/app/domains/billing/customers.py):
-- `record_customer_create_failure`, `release_unsent_claim` and `finish_customer_attempt`.
use payments_portal.Purchases.Snapshot.{int32_min, int32_max}
use payments_portal.Base.Int.{ℤ, pos, negsuc, leb_ℤ}
use payments_portal.Store.{
  Customer, Moment, State, Work, Operation, Db, Outcome, WorkState, recovery_work, save_work,
  save_operation, is_possible_send, lock_customer, value_error, customer_operation,
  billing_customer_pending,
}
use payments_portal.Base.{
  ℕ, some, ◌>>◌, Option, List, Text, map, if◌then◌else◌, ◌==◌, is_some, ◌∷◌, none, codes, any, ok,
  opt_eq, ◌&&◌, [], text_eq, leb, ◌>>=◌, err, check, is_none, or_raise, none_or,
}
use payments_portal.Customers.Open.{CustomerOpen}
use payments_portal.Customers.Send.{has_identity, fence_fits}

-- `CREATE_FAILURE_REASONS`
unfoldable pub create_failure_reasons : List Text
create_failure_reasons = map codes (
    "email_not_unique" ∷ "provider_rejected" ∷ "credentials_denied" ∷ "schema_invalid" ∷ "unknown"
    ∷ [])

unfoldable pub safe_reason : Text → Text
safe_reason reason = if any (text_eq reason) create_failure_reasons then reason else codes "unknown"

abbrev pub failed_work : Moment → ℕ → Option ℤ → Text → Work → Work
failed_work m http_status lbx_code reason work = record work {
  last_error_classification = some (safe_reason reason);
  last_failed_create = some (record {
    http_status = http_status;
    lbx_code = lbx_code;
    reason = safe_reason reason;
    recorded_at = m.now;
  });
}

abbrev pub save_failed : Moment → ℕ → Option ℤ → Text → Option Work → Db → Db
save_failed m http_status lbx_code reason none db = db
save_failed m http_status lbx_code reason (some work) db =
    save_work (failed_work m http_status lbx_code reason work) db

-- `100 <= http_status <= 599`
abbrev pub http_number : ℤ → Outcome ℕ
http_number (pos n) = if leb 100 n && leb n 599 then ok n else err value_error
http_number (negsuc n) = err value_error

-- What a failed create does with the rows.
unfoldable pub failure_rows :
    Moment → CustomerOpen → ℕ → Option ℤ → Text → Customer → Option Operation → Db → Outcome Db
failure_rows m expected http_status lbx_code reason c none db = ok db
failure_rows m expected http_status lbx_code reason c (some op) db =
    if expected.may_create && fence_fits expected c op
    then (has_identity c op >>= λ known. ok (
        if known
        then db
        else save_failed m http_status lbx_code reason (recovery_work db expected.operation_id) db))
    else ok db

-- `record_customer_create_failure`
unfoldable pub record_customer_create_failure :
    Moment → CustomerOpen → ℤ → Option ℤ → Text → Db → Outcome Db
record_customer_create_failure m expected http_status lbx_code reason db = do
  status ← http_number http_status
  check (none_or (λ n. leb_ℤ int32_min n && leb_ℤ n int32_max) lbx_code) value_error
  c ← lock_customer m db expected.customer_id
  failure_rows m expected status lbx_code reason c (customer_operation db expected.customer_id) db

abbrev pub unsent : Moment → Operation → Operation
unsent m op = record op {
  operation_state = State.pending;
  send_fence = some m.fence;
  unknown_since = none;
  unknown_recovery_deadline_at = none;
}

abbrev pub finished_work : Work → Work
finished_work work = record work {
  work_state = WorkState.done;
  lease_owner = none;
  lease_expires_at = none;
}

abbrev pub save_finished : Option Work → Db → Db
save_finished none db = db
save_finished (some work) db = save_work (finished_work work) db

-- `release_unsent_claim`
unfoldable pub release_unsent_claim : Moment → CustomerOpen → Db → Outcome Db
release_unsent_claim m expected db = do
  c ← lock_customer m db expected.customer_id
  op ← or_raise (customer_operation db expected.customer_id) billing_customer_pending
  check
      ((expected.may_create && fence_fits expected c op)
        && (is_none c.provider_customer_id
            && (is_possible_send op.operation_state && is_none op.recovery_hint_document)))
      billing_customer_pending
  ok (save_finished (recovery_work db op.create_operation_id) (save_operation (unsent m op) db))

-- The lease of the caller's own send is given up.
abbrev pub save_unleased : Option ℕ → Option Work → Db → Db
save_unleased fence none db = db
save_unleased fence (some work) db =
    if opt_eq work.lease_owner fence
    then save_work (record work { lease_owner = none; lease_expires_at = none }) db
    else db

abbrev pub outcome_unknown : Moment → Operation → Operation
outcome_unknown m op = record op { operation_state = State.unknown; send_fence = some m.fence }

-- What the end of an attempt does with the rows.
unfoldable pub finish_rows : Moment → CustomerOpen → Customer → Option Operation → Db → Db
finish_rows m expected c none db = db
finish_rows m expected c (some op) db =
    if (op.create_operation_id == expected.operation_id)
      && (opt_eq op.send_fence expected.fence && is_some expected.fence)
    then (let db' = save_unleased expected.fence (recovery_work db expected.operation_id) db in
        if is_possible_send op.operation_state && is_none c.provider_customer_id
        then save_operation (outcome_unknown m op) db'
        else db')
    else db

-- `finish_customer_attempt`
unfoldable pub finish_customer_attempt : Moment → CustomerOpen → Db → Outcome Db
finish_customer_attempt m expected db = do
  c ← lock_customer m db expected.customer_id
  ok (finish_rows m expected c (customer_operation db expected.customer_id) db)
