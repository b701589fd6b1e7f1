-- ===== src/Customers/Steps/All.antt =====
-- Every transaction takes the steps of the relation, and so does every sequence of them.
use payments_portal.Customers.Overdue.{escalate_customer}
use payments_portal.Customers.Steps.Applies.{
  apply_customer_read-Advances, escalate_customer-Advances,
}
use payments_portal.Customers.Steps.Ends.{record_customer_create_failure-Advances}
use payments_portal.Customers.Steps.Finishes.{finish_customer_attempt-Advances}
use payments_portal.Customers.Steps.Answers.{
  record_customer_receipt-Advances, release_unsent_claim-Advances,
}
use payments_portal.Customers.Steps.Claims.{claim_customer_send-Advances}
use payments_portal.Customers.Send.{claim_customer_send, record_customer_receipt}
use payments_portal.Customers.Ends.{
  record_customer_create_failure, release_unsent_claim, finish_customer_attempt,
}
use payments_portal.Customers.Steps.Reserves.{Advances-Grows, reserve_customer-Grows}
use payments_portal.Customers.Reserve.{reserve_customer}
use payments_portal.Purchases.Evolution.{op_key}
use payments_portal.Store.Tables.{IsKeyed}
use payments_portal.Store.{Db}
use payments_portal.Customers.Run.{
  apply, run, CustomerTransaction, reserves, claims, receives, fails, releases, finishes, reads,
  escalates,
}
use payments_portal.Base.{ℕ, List, All, ◌∷◌, [], Result-cases, inr, inl, refl}
use payments_portal.Customers.Slot.{Create, Holds}
use payments_portal.Customers.Steps.{
  Step, CustomerTransaction, Db, IsKeyed, op_key, Advances, Advances-same,
}

pub apply-Advances :
    (t : CustomerTransaction) (db : Db) → IsKeyed op_key db.operations → Advances t db (apply t db)
unfolding apply
apply-Advances (reserves m busy cfg fresh session) db keyed =
    let t = reserves m busy cfg fresh session in
    elim (Result-cases (reserve_customer m busy cfg fresh session db)) [
      | inr (e, refused) ↦ rw (refused, apply) (Advances-same t db db keyed refl)
      | inl ((seen, after), done) ↦
          rw (done, apply)
            (Advances-Grows t db after keyed
              (reserve_customer-Grows m busy cfg fresh session db done))
    ]
apply-Advances (claims m cfg session expected) db keyed =
    let t = claims m cfg session expected in
    elim (Result-cases (claim_customer_send m cfg session expected db)) [
      | inr (e, refused) ↦ rw (refused, apply) (Advances-same t db db keyed refl)
      | inl ((seen, after), done) ↦
          rw (done, apply) (claim_customer_send-Advances m cfg session expected db keyed done)
    ]
apply-Advances (receives m expected provider_id) db keyed =
    let t = receives m expected provider_id in
    elim (Result-cases (record_customer_receipt m expected provider_id db)) [
      | inr (e, refused) ↦ rw (refused, apply) (Advances-same t db db keyed refl)
      | inl ((seen, after), done) ↦
          rw (done, apply) (record_customer_receipt-Advances m expected provider_id db keyed done)
    ]
apply-Advances (fails m expected http_status lbx_code reason) db keyed =
    let t = fails m expected http_status lbx_code reason in
    elim (Result-cases (record_customer_create_failure m expected http_status lbx_code reason db)) [
      | inr (e, refused) ↦ rw (refused, apply) (Advances-same t db db keyed refl)
      | inl (after, done) ↦
          rw (done, apply)
            (record_customer_create_failure-Advances m expected http_status lbx_code reason db keyed
              done)
    ]
apply-Advances (releases m expected) db keyed =
    let t = releases m expected in
    elim (Result-cases (release_unsent_claim m expected db)) [
      | inr (e, refused) ↦ rw (refused, apply) (Advances-same t db db keyed refl)
      | inl (after, done) ↦
          rw (done, apply) (release_unsent_claim-Advances m expected db keyed done)
    ]
apply-Advances (finishes m expected) db keyed =
    let t = finishes m expected in
    elim (Result-cases (finish_customer_attempt m expected db)) [
      | inr (e, refused) ↦ rw (refused, apply) (Advances-same t db db keyed refl)
      | inl (after, done) ↦
          rw (done, apply) (finish_customer_attempt-Advances m expected db keyed done)
    ]
apply-Advances (reads m again expected provider outer_key ambiguous) db keyed =
    apply_customer_read-Advances m again expected provider outer_key ambiguous db keyed
apply-Advances (escalates m instant id) db keyed =
    let t = escalates m instant id in
    elim (Result-cases (escalate_customer m instant id db)) [
      | inr (e, refused) ↦ rw (refused, apply) (Advances-same t db db keyed refl)
      | inl ((escalated, after), done) ↦
          rw (done, apply) (escalate_customer-Advances m instant id db keyed done)
    ]

pub run-IsKeyed :
    (ts : List CustomerTransaction) (db : Db)
    → IsKeyed op_key db.operations
    → IsKeyed op_key (run ts db).operations
unfolding run
run-IsKeyed [] db keyed = keyed
run-IsKeyed (t ∷ ts) db keyed = run-IsKeyed ts (apply t db) (apply-Advances t db keyed).keyed

-- What every step that `ok` admits keeps, a run of such steps keeps.
module _ (P : Create → Type 0) (fits : CustomerTransaction → Type 0)
    (keep : (t : CustomerTransaction) (s s' : Create) → fits t → Step t s s' → P s → P s') where
  pub run_keeps :
      (ts : List CustomerTransaction) (db : Db) (k : ℕ) (s : Create)
      → All fits ts
      → IsKeyed op_key db.operations
      → Holds db k s
      → P s
      → (s' : Create) × Holds (run ts db) k s' × P s'
  unfolding run
  run_keeps [] db k s fit keyed held p = (s, held, p)
  run_keeps (t ∷ ts) db k s fit keyed held p =
      let a = apply-Advances t db keyed in
      let (s1, held1, step) = a.step k s held in
      run_keeps ts (apply t db) k s1 fit.1 a.keyed held1 (keep t s s1 fit.0 step p)
