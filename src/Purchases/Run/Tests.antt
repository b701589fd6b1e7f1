-- ===== src/Purchases/Run/Tests.antt =====
-- A send that is proven not to have happened, and its repetition, on the sample tables.
use payments_portal.Base.Int.{pos}
use payments_portal.Purchases.Recovery.{record_receipt}
use payments_portal.Purchases.Snapshot.{known_failure_reasons, known_failure_codes}
use payments_portal.Base.{none, codes, ◌≡◌, ok, some, refl, List, [], ◌∷◌, false, ℕ, str}
use payments_portal.Store.{Kind, Db, recovery_work, text}
use payments_portal.Purchases.Contracts.{FinancialOperation}
use payments_portal.Purchases.Claim.{claim_financial}
use payments_portal.Purchases.Run.{
  Transaction, run, committed_claim, proves_not_sent, committed, waits, claims, record_receipt,
}
use payments_portal.Purchases.Run.Receipts.{record_receipt_agrees}
use payments_portal.Purchases.Snapshot.{candidate_of}
use payments_portal.Purchases.Run.OneRequest.{claim_financial-one_request}
use payments_portal.Purchases.Samples.{program, moment, initial, the_purchase, the_request, seen}
use payments_portal.Purchases.Samples.Runs.{
  claimed_seen, claimed_db, claim_run-initial, initial-IsKeyed, stored-IsSound,
}

abbrev not_sent : List Transaction
not_sent = proves_not_sent (moment 1005 50) the_purchase claimed_seen ∷ []

abbrev repeated_seen : FinancialOperation
repeated_seen = record claimed_seen {
  fence = some 60;
  deadline = some 8210;
  last_failure = some (record { status = none; code = none; reason = codes "network" });
  last_failure_code = some (codes "lbx_create_not_sent");
}

abbrev proven_seen : FinancialOperation
proven_seen = record claimed_seen { fence = some 50 }

abbrev repeated_db : Db
repeated_db = committed_claim claimed_db (
    claim_financial (moment 1010 60) (ok 1) the_purchase proven_seen the_request
      (run not_sent claimed_db))

claim_financial-repeated :
    claim_financial
      (moment 1010 60)
      (ok 1)
      the_purchase
      proven_seen
      the_request
      (run not_sent claimed_db)
    ≡ ok (repeated_seen, repeated_db)
unfolding program known_failure_reasons known_failure_codes
claim_financial-repeated = refl

claim_financial-one_request_example : the_request ≡ the_request
claim_financial-one_request_example =
    claim_financial-one_request (moment 1000 40) (moment 1010 60) (ok 1) (ok 1) the_purchase
      the_purchase (seen 20 Kind.agreement) proven_seen the_request the_request initial not_sent
      initial-IsKeyed stored-IsSound claim_run-initial refl refl claim_financial-repeated refl

abbrev received : Db
received =
    committed claimed_db
      (record_receipt (moment 1006 51) the_purchase claimed_seen (pos 77) claimed_db)

-- A read without a result, and a claim that may not send.
abbrev between : List Transaction
between =
    waits (moment 1007 52) the_purchase claimed_seen false none
    ∷ claims (moment 1008 53) (ok 1) the_purchase claimed_seen the_request
    ∷ []

record_receipt_agrees_example :
    (pos 77 ≡ pos 77)
    × ((provider : ℕ) × (pos 77 ≡ pos provider)
        × (candidate_of (recovery_work (run between received) 20) ≡ text (str provider)))
unfolding program
record_receipt_agrees_example =
    record_receipt_agrees (moment 1006 51) (moment 1009 54) the_purchase the_purchase claimed_seen
      claimed_seen (pos 77) (pos 77) claimed_db between {after = received}
      {after' = run between received} refl refl refl
