-- ===== src/Customers/Samples.antt =====
-- One user's slot with its create, and what the transactions of customers.py make of it.
use payments_portal.Customers.Run.{
  CustomerTransaction, apply, run, fails, finishes, escalates, receives,
}
use payments_portal.Customers.Open.{
  CustomerOpen, User, Configuration, receipt_id, receipt_number, is_customer_number,
  customer_snapshot, customer_receipt_schema,
}
use payments_portal.Customers.Send.{
  claim_fits, has_identity, leased_work, send_rows, send_or_show, claim_customer_send, fence_fits,
  customer_number, has_sent, record_customer_receipt,
}
use payments_portal.Customers.Ends.{
  create_failure_reasons, safe_reason, failure_rows, record_customer_create_failure,
  release_unsent_claim, finish_rows, finish_customer_attempt,
}
use payments_portal.Customers.Read.{
  conflicts_with, unread, bound_create, bound_create_rows, breaks_provider, already_bound,
  bind_customer, admit_read, read_rows, apply_customer_read,
}
use payments_portal.Customers.Overdue.{
  due_customers, insert_due, sort_due, first_due, overdue_customer_ids, escalate_customer,
  escalate_customers, escalate_overdue_customers,
}
use payments_portal.Customers.Reviews.{
  check_reviews, admission_reviews, recovery_reviews, allows_key_recovery, names_identity,
  key_evidence, customer_case, record_review, record_conflict, is_original,
}
use payments_portal.Purchases.Evolution.{op_key}
use payments_portal.Store.Tables.{IsKeyed}
use payments_portal.Base.Int.{pos}
use payments_portal.Base.{
  ℕ, ◌≡◌, refl, ok, none, some, true, false, [], ◌∷◌, List, codes, str, int, text_eq, ◌+◌,
}
use payments_portal.Store.{
  Moment, Db, Kind, Customer, Operation, Work, WorkState, State, Binding, null, customer_operation,
  recovery_work, open_reviews, lock_customer, open_case, reason_eq,
}

-- Everything that a run computes with.
unfoldable pub customer_program : Unit {0}
unfolding apply run receipt_id receipt_number is_customer_number customer_snapshot
    customer_receipt_schema claim_fits has_identity leased_work send_rows send_or_show
    claim_customer_send fence_fits customer_number has_sent record_customer_receipt
    create_failure_reasons safe_reason failure_rows record_customer_create_failure
    release_unsent_claim finish_rows finish_customer_attempt conflicts_with unread bound_create
    bound_create_rows breaks_provider already_bound bind_customer admit_read read_rows
    apply_customer_read due_customers insert_due sort_due first_due overdue_customer_ids
    escalate_customer escalate_customers escalate_overdue_customers check_reviews admission_reviews
    recovery_reviews allows_key_recovery names_identity key_evidence customer_case record_review
    record_conflict is_original text_eq str int customer_operation recovery_work open_reviews
    lock_customer open_case reason_eq
customer_program = tt

abbrev pub at : ℕ → ℕ → Moment
at now fence = record {
  now = now;
  fence = fence;
  subscription_id = fence + 500;
  observation_id = fence + 600;
  user_busy = false;
  customer_busy = false;
}

abbrev pub settings : Configuration
settings = record {
  lbx_provider_origin = 79 ∷ [];
  lbx_external_billing_account_id = 9 ∷ [];
  lbx_legacy_credential_scope = none;
  send_lease = 30;
}

abbrev pub the_user : User
the_user = record {
  user_id = 1;
  email = codes "a@b";
  first_name = none;
  surname = none;
  patronymic = none;
}

abbrev pub the_slot : Customer
the_slot = record {
  customer_id = 3;
  user_id = 1;
  external_billing_account_id = 9 ∷ [];
  provider_origin = some (79 ∷ []);
  billing_customer_key = 19 ∷ [];
  provider_customer_id = none;
  binding_state = Binding.unbound;
}

abbrev pub the_create : Operation
the_create = record {
  create_operation_id = 19;
  operation_kind = Kind.customer;
  customer_id = 3;
  external_billing_account_id = none;
  purchase_intent_id = none;
  request_correlation_key = 19 ∷ [];
  operation_state = State.pending;
  send_fence = none;
  bound_external_object_id = none;
  unknown_since = none;
  unknown_recovery_deadline_at = none;
  recovery_hint_schema_version = none;
  recovery_hint_document = none;
  resolved_at = none;
}

abbrev pub reserved : Db
reserved = record {
  heads = [];
  intents = [];
  holds = [];
  operations = the_create ∷ [];
  works = [];
  reviews = [];
  customers = the_slot ∷ [];
  subscriptions = [];
  observations = [];
}

-- What the reservation shows its caller.
abbrev pub reserved_seen : CustomerOpen
reserved_seen = record {
  customer_id = 3;
  operation_id = 19;
  fence = none;
  outer_key = 19 ∷ [];
  provider_id = none;
  may_create = true;
  email = codes "a@b";
  first_name = none;
  surname = none;
  patronymic = none;
  receipt_id = none;
}

-- The claim at 1000 under the fence 40.
abbrev pub sent_create : Operation
sent_create = record the_create {
  operation_state = State.possible_send;
  send_fence = some 40;
  unknown_since = some 1000;
  unknown_recovery_deadline_at = some 8200;
}

abbrev pub sent_work : Work
sent_work = record {
  coalescing_key = 19;
  candidate_id = null;
  last_failure = none;
  next_attempt_at = 8200;
  active_recovery_deadline_at = none;
  work_state = WorkState.pending;
  attempt_count = 1;
  lease_owner = some 40;
  lease_expires_at = some 1030;
  last_error_classification = none;
  last_failed_create = none;
}

abbrev pub sent_db : Db
sent_db = record reserved { operations = sent_create ∷ []; works = sent_work ∷ [] }

abbrev pub sent_seen : CustomerOpen
sent_seen = record reserved_seen { fence = some 40 }

pub claims_reserved :
    claim_customer_send (at 1000 40) settings (ok the_user) reserved_seen reserved
    ≡ ok (sent_seen, sent_db)
unfolding customer_program
claims_reserved = refl

pub reserved-IsKeyed : IsKeyed op_key reserved.operations
reserved-IsKeyed = (refl, tt)

pub sent_db-IsKeyed : IsKeyed op_key sent_db.operations
sent_db-IsKeyed = (refl, tt)

-- A failure that the provider answered, and an escalation that comes too early.
abbrev pub meanwhile : List CustomerTransaction
meanwhile =
    fails (at 1005 50) sent_seen (pos 422) none (codes "email_not_unique")
    ∷ escalates (at 1006 51) 1006 3
    ∷ []

-- What a second claim shows: nobody's names, and no right to create.
abbrev pub waiting : CustomerOpen
waiting = record sent_seen { may_create = false; email = [] }

pub claims_while_leased :
    claim_customer_send (at 1010 41) settings (ok the_user) sent_seen (run meanwhile sent_db)
    ≡ ok (waiting, run meanwhile sent_db)
unfolding customer_program
claims_while_leased = refl

-- The receipt of the send.
abbrev pub received_seen : CustomerOpen
received_seen = record waiting { receipt_id = some (codes "77") }

abbrev pub receipt_db : Db
receipt_db = run (receives (at 1007 52) sent_seen (pos 77) ∷ []) sent_db

pub receives_sent :
    record_customer_receipt (at 1007 52) sent_seen (pos 77) sent_db ≡ ok (received_seen, receipt_db)
unfolding customer_program
receives_sent = refl

-- The end of the attempt gives the lease up and changes the fence.
abbrev pub ended : List CustomerTransaction
ended = finishes (at 1008 53) sent_seen ∷ []

abbrev pub ended_seen : CustomerOpen
ended_seen = record received_seen { fence = some 53 }

pub claims_after_receipt :
    claim_customer_send (at 2000 42) settings (ok the_user) ended_seen (run ended receipt_db)
    ≡ ok (ended_seen, run ended receipt_db)
unfolding customer_program
claims_after_receipt = refl
