-- ===== src/Purchases/Samples/Runs.antt =====
-- A first claim of the agreement on the sample tables, and what two later transactions make of it.
use payments_portal.Purchases.Run.{run, Transaction, waits, receives}
use payments_portal.Purchases.Evolution.{IsSound, op_key}
use payments_portal.Store.Tables.{IsKeyed, get}
use payments_portal.Purchases.Snapshot.{financial_hint_schema}
use payments_portal.Purchases.Contracts.{FinancialOperation}
use payments_portal.Purchases.Claim.{claim_financial}
use payments_portal.Base.{
  ◌≡◌, refl, ok, true, false, none, some, [], ◌∷◌, codes, arith, List, subst, some-injective, sym,
  ◌∙◌,
}
use payments_portal.Base.Int.{pos}
use payments_portal.Store.{Db, Kind, Operation, Work, State, IntentState, null, WorkState}
use payments_portal.Purchases.Samples.{
  initial, moment, program, seen, the_agreement, the_customer_create, the_intent, the_purchase,
  the_request, the_subscription,
}

-- The agreement, its recovery item and the tables after a claim at 1000 under the fence 40.
abbrev pub claimed_agreement : Operation
unfolding financial_hint_schema
claimed_agreement = record the_agreement {
  operation_state = State.possible_send;
  send_fence = some 40;
  unknown_since = some 1000;
  unknown_recovery_deadline_at = some 8200;
  recovery_hint_schema_version = some financial_hint_schema;
  recovery_hint_document = some (record {
    request = some the_request;
    purchase_intent_id = some 10;
    accepted_fingerprint = some (70 ∷ []);
    provider_customer_candidate_id = null;
  });
}

abbrev pub claimed_work : Work
claimed_work = record {
  coalescing_key = 20;
  candidate_id = null;
  last_failure = none;
  next_attempt_at = 8200;
  active_recovery_deadline_at = some 8200;
  work_state = WorkState.pending;
  attempt_count = 1;
  lease_owner = none;
  lease_expires_at = none;
  last_error_classification = none;
  last_failed_create = none;
}

abbrev pub claimed_db : Db
unfolding financial_hint_schema
claimed_db = record initial {
  intents = record the_intent { state = IntentState.preparing; state_updated_at = 1000 } ∷ [];
  operations = the_customer_create ∷ the_subscription ∷ claimed_agreement ∷ [];
  works = claimed_work ∷ [];
}

abbrev pub claimed_seen : FinancialOperation
claimed_seen = record (seen 20 Kind.agreement) {
  state = State.possible_send;
  fence = some 40;
  deadline = some 8200;
  may_send = true;
  agreement_create_date = some 150;
}

pub claim_run-initial :
    claim_financial
      (moment 1000 40)
      (ok 1)
      the_purchase
      (seen 20 Kind.agreement)
      the_request
      initial
    ≡ ok (claimed_seen, claimed_db)
unfolding program
claim_run-initial = refl

pub initial-IsKeyed : IsKeyed op_key initial.operations
initial-IsKeyed = (refl, (refl, (refl, tt)))

pub agreement-IsSound : IsSound the_agreement
agreement-IsSound = ground arith

-- Two later transactions: the send's outcome stays unknown, and its receipt arrives.
abbrev pub later : List Transaction
later =
    waits (moment 1005 50) the_purchase claimed_seen false none
    ∷ receives (moment 1006 51) the_purchase claimed_seen (pos 77)
    ∷ []

-- What another claim then shows.
abbrev pub waiting_seen : FinancialOperation
waiting_seen = record claimed_seen {
  state = State.unknown;
  candidate_id = some (codes "77");
  may_send = false;
}

pub claim_financial-later :
    claim_financial
      (moment 1010 41)
      (ok 1)
      the_purchase
      claimed_seen
      the_request
      (run later claimed_db)
    ≡ ok (waiting_seen, run later claimed_db)
unfolding program
claim_financial-later = refl

pub initial-agreement : get op_key 20 initial.operations ≡ some the_agreement
unfolding program
initial-agreement = refl

pub claimed_agreement-IsSound : IsSound claimed_agreement
unfolding claimed_agreement
claimed_agreement-IsSound = ground arith

pub claimed_db-IsKeyed : IsKeyed op_key claimed_db.operations
unfolding claimed_db claimed_agreement
claimed_db-IsKeyed = (refl, (refl, (refl, tt)))

pub claimed_db-agreement : get op_key 20 claimed_db.operations ≡ some claimed_agreement
unfolding program
claimed_db-agreement = refl

-- The receipt's number is bound by a point read.
abbrev pub received_db : Db
received_db = run later claimed_db

pub received_db-IsKeyed : IsKeyed op_key received_db.operations
unfolding program
received_db-IsKeyed = (refl, (refl, (refl, tt)))

-- The agreement is stored soundly wherever it is asked for.
pub stored-IsSound : (o : Operation) → get op_key 20 initial.operations ≡ some o → IsSound o
stored-IsSound o e =
    subst IsSound (some-injective the_agreement o (sym initial-agreement ∙ e)) agreement-IsSound
