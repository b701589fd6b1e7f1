-- ===== src/Customers/Tests.antt =====
-- Runs of the customer's transactions on the sample tables.
use payments_portal.Customers.Run.Lease.{claim_customer_send-one_sender}
use payments_portal.Customers.Run.History.{receipt_stops_sends, run-Keeps}
use payments_portal.Customers.Run.Receipts.{record_customer_receipt_round_trip}
use payments_portal.Customers.Run.Batch.{escalate_overdue_customers-runs, is_escalation}
use payments_portal.Customers.Read.Binds.{BindsCustomer, apply_customer_read-Binds}
use payments_portal.Customers.Reviews.Admits.{
  recovery_reviews_iff, IsKeyProven, admission_reviews_iff,
}
use payments_portal.Customers.Reviews.Reasons.{IsKeyMismatch, IsUnknownOutcome}
use payments_portal.Customers.Reviews.{admission_reviews, recovery_reviews}
use payments_portal.Customers.Read.{apply_customer_read}
use payments_portal.Customers.Overdue.{escalate_overdue_customers}
use payments_portal.Customers.Steps.Keeps.{Keeps}
use payments_portal.Customers.Steps.Sound.{IsSoundSlot}
use payments_portal.Customers.Slot.{Create, Holds}
use payments_portal.Customers.Run.{CustomerTransaction, run}
use payments_portal.Customers.Open.{CustomerOpen, receipt_id}
use payments_portal.Base.Int.{pos}
use payments_portal.Base.{
  ◌⊎◌, ℕ, ◌≡◌, ◌≤◌, ◌↔◌, refl, ok, some, true, false, [], ◌∷◌, List, All, codes, length, arith, ◌+◌,
  str, int,
}
use payments_portal.Store.{Db, is_conflicting, open_reviews, Binding, Operation, customer_operation}
use payments_portal.Customers.Samples.{
  customer_program, at, settings, the_user, the_slot, reserved, reserved_seen, sent_create,
  sent_work, sent_db, sent_seen, claims_reserved, reserved-IsKeyed, sent_db-IsKeyed, meanwhile,
  waiting, claims_while_leased, receipt_db, receives_sent, ended, ended_seen, claims_after_receipt,
}

claim_customer_send-one_sender_example :
    (waiting.may_create ≡ false) × (run meanwhile sent_db ≡ run meanwhile sent_db)
claim_customer_send-one_sender_example =
    claim_customer_send-one_sender (at 1000 40) (at 1010 41) settings settings (ok the_user)
      (ok the_user) reserved_seen sent_seen reserved meanwhile reserved-IsKeyed claims_reserved refl
      (refl, (refl, tt)) (omega arith) refl claims_while_leased

receipt_stops_sends_example :
    (ended_seen.may_create ≡ false) × (run ended receipt_db ≡ run ended receipt_db)
receipt_stops_sends_example =
    receipt_stops_sends (at 1007 52) (at 2000 42) settings (ok the_user) sent_seen ended_seen
      (pos 77) sent_db ended sent_db-IsKeyed receives_sent refl claims_after_receipt

record_customer_receipt_round_trip_example :
    (op : Operation) × (customer_operation (run ended receipt_db) 3 ≡ some op)
    × (receipt_id op ≡ ok (some (str 77)))
    × (int (str 77) ≡ 77)
record_customer_receipt_round_trip_example =
    record_customer_receipt_round_trip (at 1007 52) sent_seen 77 sent_db ended sent_db-IsKeyed
      receives_sent

abbrev sent_slot : Create
sent_slot = record { customer = the_slot; operation = sent_create; work = some sent_work }

sent_db-Holds : Holds sent_db 3 sent_slot
unfolding customer_program
sent_db-Holds = record { customer = refl; operation = refl; work = refl }

sent_slot-IsSoundSlot : IsSoundSlot sent_slot
sent_slot-IsSoundSlot = ground arith

run-Keeps_example :
    (s' : Create) × Holds (run meanwhile sent_db) 3 s' × Keeps sent_slot s' × IsSoundSlot s'
run-Keeps_example =
    run-Keeps meanwhile sent_db 3 sent_slot sent_db-IsKeyed sent_db-Holds sent_slot-IsSoundSlot

-- The point read of the created customer.
abbrev read_seen : CustomerOpen
read_seen = record waiting { provider_id = some (codes "77"); fence = some 60 }

apply_customer_read-Binds_example :
    BindsCustomer
      (at 1020 60)
      sent_seen
      (some (codes "77"))
      (some (19 ∷ []))
      sent_db
      read_seen
      (apply_customer_read
        (at 1020 60)
        (at 1021 61)
        sent_seen
        (some (codes "77"))
        (some (19 ∷ []))
        false
        sent_db).1
unfolding customer_program
apply_customer_read-Binds_example =
    apply_customer_read-Binds (at 1020 60) (at 1021 61) sent_seen (some (codes "77"))
      (some (19 ∷ [])) false sent_db sent_db-IsKeyed refl

-- A read that gives another key leaves a conflict and a review, and raises.
conflicting_read :
    (apply_customer_read
      (at 1020 60)
      (at 1021 61)
      sent_seen
      (some (codes "77"))
      (some (20 ∷ []))
      false
      sent_db).1.customers
    ≡ record the_slot { binding_state = Binding.identity_conflict } ∷ []
unfolding customer_program
conflicting_read = refl

escalate_overdue_customers-runs_example :
    let r = escalate_overdue_customers (λ i. at (9000 + i) 70) 9000 5 sent_db in
    (ts : List CustomerTransaction) × All (λ t. is_escalation t ≡ true) ts
    × (run ts sent_db ≡ r.1)
    × (length ts ≤ 5)
    × ((total : ℕ) → r.0 ≡ ok total → total ≤ 5)
escalate_overdue_customers-runs_example =
    escalate_overdue_customers-runs (λ i. at (9000 + i) 70) 9000 5 sent_db

-- The overdue create is escalated once.
escalates_overdue_create :
    (escalate_overdue_customers (λ i. at (9000 + i) 70) 9000 5 sent_db).0 ≡ ok 1
unfolding customer_program
escalates_overdue_create = refl

abbrev overdue_db : Db
overdue_db = (escalate_overdue_customers (λ i. at (9000 + i) 70) 9000 5 sent_db).1

admission_reviews_iff_example : (admission_reviews overdue_db the_slot sent_create ≡ ok tt) ↔ (
    (is_conflicting the_slot.binding_state ≡ false)
    × All IsUnknownOutcome (open_reviews overdue_db 19))
admission_reviews_iff_example = admission_reviews_iff overdue_db the_slot sent_create

recovery_reviews_iff_example :
    (recovery_reviews overdue_db the_slot sent_create ≡ ok (open_reviews overdue_db 19)) ↔ (
      ((is_conflicting the_slot.binding_state ≡ false)
        × All IsUnknownOutcome (open_reviews overdue_db 19))
      ⊎ (IsKeyProven the_slot sent_create (open_reviews overdue_db 19)
          × All (λ r. IsUnknownOutcome r ⊎ IsKeyMismatch r) (open_reviews overdue_db 19)))
recovery_reviews_iff_example = recovery_reviews_iff overdue_db the_slot sent_create
