-- ===== src/Purchases/Tests.antt =====
-- Runs of the purchase transactions on the sample tables.
use payments_portal.Purchases.Run.Reviewed.{sent_to_review}
use payments_portal.Purchases.Run.Batch.{escalate_overdue_financial-runs}
use payments_portal.Purchases.Escalate.{escalate_overdue_financial}
use payments_portal.Purchases.Bind.Identity.{Binds, bind_financial-Binds}
use payments_portal.Purchases.Stale.{stale_fence_is_void}
use payments_portal.Purchases.Recovery
use payments_portal.Purchases.Changed.Release.{EndsUnsent, changed_unsent_terms-releases}
use payments_portal.Purchases.Recovery.Advances.{
  financial_pending-Advances, proven_not_sent-Advances,
}
use payments_portal.Purchases.Contracts.{FinancialOperation, purchase_pending}
use payments_portal.Purchases.Changed.{changed_unsent_terms}
use payments_portal.Purchases.Recovery.{financial_pending, record_receipt}
use payments_portal.Purchases.Claim.{claim_financial}
use payments_portal.Purchases.Snapshot.Identity.{proven_identity_iff, safe_failure_bounds}
use payments_portal.Purchases.Bind.Advances.{bind_financial-Advances}
use payments_portal.Base.Int.{pos, ℤ, ◌≤ℤ◌}
use payments_portal.Purchases.Bind.{bind_financial}
use payments_portal.Purchases.Snapshot.{
  proven_identity, safe_failure, int32_min, int32_max, unknown_reason, known_failure_reasons,
  failure_code, financial_source_failure, known_failure_codes, operation_snapshot,
}
use payments_portal.Purchases.Run.History.{Preserves, run-Preserves}
use payments_portal.Purchases.Run.OneSender.{claim_financial-one_sender}
use payments_portal.Purchases.Claim.Advances.{claim_financial-Advances}
use payments_portal.Purchases.Run.{run, committed, Transaction, is_escalation}
use payments_portal.Purchases.Evolution.{op_key, IsSound, Advances}
use payments_portal.Store.Tables.{get}
use payments_portal.Purchases.Claim.Fence.{ClaimSends, claim_financial-sends}
use payments_portal.Base.{
  false, ◌≡◌, ok, some, refl, codes, ◌↔◌, none, ℕ, ◌<◌, ◌^◌, str, ◌⊎◌, any, text_eq, true, err,
  ◌>>=◌, [], arith, List, All, ◌≤◌,
}
use payments_portal.Store.{
  Operation, Kind, text, number, null, Failure, purchase_history_unproven, PurchaseIntent, Db,
  purchase_pending, IntentState,
}
use payments_portal.Purchases.Samples.{
  moment, initial, the_purchase, seen, the_request, program, the_intent,
}
use payments_portal.Purchases.Samples.Runs.{
  initial-IsKeyed, waiting_seen, claimed_db, later, claimed_seen, claim_run-initial,
  claimed_agreement, claim_financial-later, claimed_db-IsKeyed, claimed_db-agreement,
  claimed_agreement-IsSound, received_db, received_db-IsKeyed, stored-IsSound,
}

claim_financial-one_sender_example :
    (waiting_seen.may_send ≡ false) × (run later claimed_db ≡ run later claimed_db)
claim_financial-one_sender_example =
    claim_financial-one_sender (moment 1000 40) (moment 1010 41) (ok 1) (ok 1) the_purchase
      the_purchase (seen 20 Kind.agreement) claimed_seen the_request the_request initial later
      initial-IsKeyed stored-IsSound claim_run-initial refl (refl, (refl, tt)) refl
      claim_financial-later

claim_financial-sends_example :
    ClaimSends
      (moment 1000 40)
      (ok 1)
      the_purchase
      (seen 20 Kind.agreement)
      the_request
      initial
      claimed_seen
      claimed_db
claim_financial-sends_example =
    claim_financial-sends (moment 1000 40) (ok 1) the_purchase (seen 20 Kind.agreement) the_request
      initial initial-IsKeyed claim_run-initial refl

run-Preserves_example :
    (o' : Operation) × (get op_key 20 (run later claimed_db).operations ≡ some o')
    × IsSound o'
    × Preserves claimed_agreement o'
run-Preserves_example =
    run-Preserves later claimed_db 20 claimed_agreement claimed_db-IsKeyed claimed_db-agreement
      claimed_agreement-IsSound

-- A claim of the agreement whose caller still holds the fence of before the first claim.
stale_fence_is_void_example :
    (claim_financial
        (moment 1010 41)
        (ok 1)
        the_purchase
        (seen 20 Kind.agreement)
        the_request
        claimed_db
      ≡ ◌>>=◌ {B = FinancialOperation × Db}
          (operation_snapshot claimed_db claimed_agreement false)
          (λ shown. ok (shown, claimed_db)))
    × (Recovery.proven_not_sent (moment 1010 41) the_purchase (seen 20 Kind.agreement) claimed_db
        ≡ ok claimed_db)
    × (financial_pending (moment 1010 41) the_purchase (seen 20 Kind.agreement) true none claimed_db
        ≡ ok claimed_db)
    × (record_receipt (moment 1010 41) the_purchase (seen 20 Kind.agreement) (pos 77) claimed_db
        ≡ err purchase_pending)
    × (bind_financial
          (moment 1010 41)
          (moment 1011 42)
          the_purchase
          (seen 20 Kind.agreement)
          (pos 77)
          none
          claimed_db
        ≡ (err purchase_pending, claimed_db))
unfolding program
stale_fence_is_void_example =
    stale_fence_is_void (moment 1010 41) (moment 1011 42) the_purchase (seen 20 Kind.agreement)
      claimed_db (record the_intent { state = IntentState.preparing; state_updated_at = 1000 })
      claimed_agreement the_request true none (pos 77) 77 none refl refl (λ e. ground arith) refl

-- What a proof that nothing was sent, a failed read and a binding make of the claimed agreement.
proven_not_sent-Advances_example : Advances true claimed_db (
    committed claimed_db
      (Recovery.proven_not_sent (moment 1010 41) the_purchase claimed_seen claimed_db))
unfolding program
proven_not_sent-Advances_example =
    proven_not_sent-Advances (moment 1010 41) the_purchase claimed_seen claimed_db
      claimed_db-IsKeyed refl

financial_pending-Advances_example : Advances false claimed_db (
    committed claimed_db
      (financial_pending (moment 1010 41) the_purchase claimed_seen true none claimed_db))
unfolding program
financial_pending-Advances_example =
    financial_pending-Advances (moment 1010 41) the_purchase claimed_seen true none claimed_db
      claimed_db-IsKeyed refl

bind_financial-Advances_example :
    Advances false claimed_db
      (bind_financial
        (moment 1100 60)
        (moment 1101 61)
        the_purchase
        claimed_seen
        (pos 77)
        none
        claimed_db).1
bind_financial-Advances_example =
    bind_financial-Advances (moment 1100 60) (moment 1101 61) the_purchase claimed_seen (pos 77)
      none claimed_db claimed_db-IsKeyed

claim_financial-Advances_example : Advances false initial claimed_db
claim_financial-Advances_example =
    claim_financial-Advances (moment 1000 40) (ok 1) the_purchase (seen 20 Kind.agreement)
      the_request initial initial-IsKeyed claim_run-initial

-- The terms change before anything is sent.
changed_unsent_terms-releases_example :
    ((committed initial (changed_unsent_terms (moment 1000 40) the_purchase initial)).holds
      ≡ initial.holds)
    ⊎ ((row : PurchaseIntent) × EndsUnsent
          (moment 1000 40)
          the_purchase
          initial
          (committed initial (changed_unsent_terms (moment 1000 40) the_purchase initial))
          row)
unfolding program
changed_unsent_terms-releases_example =
    changed_unsent_terms-releases (moment 1000 40) the_purchase initial refl

ended_releases_hold :
    (committed initial (changed_unsent_terms (moment 1000 40) the_purchase initial)).holds ≡ []
unfolding program
ended_releases_hold = refl

proven_identity_iff_example :
    (proven_identity (text (codes "077")) ≡ ok (some (codes "077")))
    ↔ ((n : ℕ) × (0 < n) × (n < 10 ^ 20) × (codes "077" ≡ str n))
proven_identity_iff_example = proven_identity_iff (codes "077")

proven_identity-leading_zero : proven_identity (text (codes "077")) ≡ err purchase_history_unproven
unfolding program
proven_identity-leading_zero = refl

abbrev a_failure : Failure
a_failure = record {
  code = text (codes "strange");
  http_status = number (pos 700);
  lbx_code = number (pos 5);
  reason = null;
}

safe_failure_bounds_example :
    ((n : ℤ) → (safe_failure a_failure).status ≡ some n → (pos 100 ≤ℤ n) × (n ≤ℤ pos 599))
    × ((n : ℤ) → (safe_failure a_failure).code ≡ some n → (int32_min ≤ℤ n) × (n ≤ℤ int32_max))
    × (((safe_failure a_failure).reason ≡ unknown_reason)
        ⊎ (any (text_eq (safe_failure a_failure).reason) known_failure_reasons ≡ true))
    × ((failure_code a_failure ≡ financial_source_failure)
        ⊎ (any (text_eq (failure_code a_failure)) known_failure_codes ≡ true))
safe_failure_bounds_example = safe_failure_bounds a_failure

bind_financial-Binds_example :
    Binds
      (moment 1100 60)
      claimed_seen
      (pos 77)
      received_db
      (bind_financial
        (moment 1100 60)
        (moment 1101 61)
        the_purchase
        claimed_seen
        (pos 77)
        none
        received_db).1
unfolding program
bind_financial-Binds_example =
    bind_financial-Binds (moment 1100 60) (moment 1101 61) the_purchase claimed_seen (pos 77) none
      received_db received_db-IsKeyed refl

escalate_overdue_financial-runs_example :
    let b = (escalate_overdue_financial (moment 9000) 9000 5 received_db).1 in
    (ts : List Transaction) × (b.tables ≡ run ts received_db)
    × All (λ t. is_escalation t ≡ true) ts
    × (b.count ≡ sent_to_review ts received_db)
    × (b.count ≤ 5)
escalate_overdue_financial-runs_example =
    escalate_overdue_financial-runs (moment 9000) 9000 5 received_db received_db-IsKeyed

-- The overdue agreement is escalated once.
escalates_overdue_agreement :
    (escalate_overdue_financial (moment 9000) 9000 5 received_db).1.count ≡ 1
unfolding program
escalates_overdue_agreement = refl
