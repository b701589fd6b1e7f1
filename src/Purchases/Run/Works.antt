-- ===== src/Purchases/Run/Works.antt =====
-- What a claim, a no-send proof and a receipt do to the recovery items, where receipts are recorded.
use payments_portal.Purchases.Recovery.Receipts.{record_receipt-Recorded}
use payments_portal.Purchases.Claim.Fence.{claim_run}
use payments_portal.Base.Int.{ℤ}
use payments_portal.Purchases.Locking.{with_operation-eq-ok}
use payments_portal.Purchases.Snapshot.{candidate_of}
use payments_portal.Purchases.Contracts.{Purchase, FinancialOperation}
use payments_portal.Purchases.Claim.{schedule_recovery, claim_rows, claim_financial, claimed}
use payments_portal.Purchases.Recovery.{
  not_sent_rest, receipt_fits, keeps_send, record_receipt, not_sent_failure,
}
use payments_portal.Base.{
  ◌≡◌, ◌⊎◌, ◌∙◌, ok, refl, true, inl, inr, ap, sym, arith, none, some, ◌==◌, ℕ, Text, Option,
  Option-cases, subst, str, text_eq→eq, Bool-cases,
}
use payments_portal.Store.{
  Moment, Db, Operation, Work, recovery_work, Outcome, RequestDocument, text, PurchaseIntent,
  save_operation, WorkState,
}
use payments_portal.Store.Tables.{get, put, get-key, get-put_self, get-put_ne}
use payments_portal.Purchases.Recovery

-- Every recorded receipt is kept.
abbrev pub KeepsReceipts : Db → Db → Type 0
KeepsReceipts db after =
    (k : ℕ) (t : Text)
    → candidate_of (recovery_work db k) ≡ text t
    → candidate_of (recovery_work after k) ≡ text t

pub KeepsReceipts-same : (db after : Db) → after.works ≡ db.works → KeepsReceipts db after
unfolding recovery_work
KeepsReceipts-same db after same k t h =
    ap (λ works. candidate_of (get (λ (w : Work). w.coalescing_key) k works)) same ∙ h

-- A rewritten recovery item keeps its key and its receipt.
pub KeepsReceipts-put :
    (db after : Db) (id : ℕ) (old new : Work)
    → recovery_work db id ≡ some old
    → new.coalescing_key ≡ old.coalescing_key
    → ((t : Text) → old.candidate_id ≡ text t → new.candidate_id ≡ text t)
    → after.works ≡ put (λ w. w.coalescing_key) new db.works
    → KeepsReceipts db after
unfolding recovery_work
KeepsReceipts-put db after id old new found same_key keeps written k t h =
    let key = λ (w : Work). w.coalescing_key in
    let at : key new ≡ id = same_key ∙ get-key key id db.works found in
    let stored : get key (key new) db.works ≡ some old =
      subst (λ i. get key i db.works ≡ some old) (sym at) found in
    ap (λ works. candidate_of (get key k works)) written ∙ elim (Bool-cases (key new == k)) [
      | inl same_number ↦
          let here : key new ≡ k = ground (arith, same_number) in
          let self : get key k (put key new db.works) ≡ some new =
            subst (λ i. get key i (put key new db.works) ≡ some new) here
              (get-put_self key new db.works {old = old} stored) in
          let was : get key k db.works ≡ some old =
            subst (λ i. get key i db.works ≡ some old) here stored in
          ap candidate_of self ∙ keeps t (ap candidate_of (sym was) ∙ h)
      | inr other ↦
          ap candidate_of (get-put_ne key k new db.works (λ e. ground (arith, e, other))) ∙ h
    ]

schedule_recovery-keeps :
    (m : Moment) (id : ℕ) (db : Db) (work : Option Work)
    → recovery_work db id ≡ work
    → KeepsReceipts db (schedule_recovery m id work db)
unfolding schedule_recovery recovery_work
schedule_recovery-keeps m id db none absent k t h = elim (Bool-cases (id == k)) [
  | inl same_number ↦
      let here : id ≡ k = ground (arith, same_number) in
      cc (
        subst (λ w. candidate_of w ≡ text t)
          (subst (λ i. get (λ (w : Work). w.coalescing_key) i db.works ≡ none) here absent) h)
  | inr other ↦ rw other h
]
schedule_recovery-keeps m id db (some work) found k t h =
    KeepsReceipts-put db (schedule_recovery m id (some work) db) id work _ found refl (λ t e. e)
      refl k t h

claim_rows-keeps :
    (m : Moment) (purchase : Purchase) (request : RequestDocument) (row : PurchaseIntent)
    (op : Operation) (db : Db)
    → KeepsReceipts db (claim_rows m purchase request row op db)
unfolding claim_rows recovery_work
claim_rows-keeps m purchase request row op db k t h =
    schedule_recovery-keeps m op.create_operation_id
      (save_operation (claimed m purchase request op) db) (recovery_work db op.create_operation_id)
      refl k t h

pub claim_financial-keeps :
    (m : Moment) (session : Outcome ℕ) (purchase : Purchase) (expected : FinancialOperation)
    (request : RequestDocument) (db : Db) {shown : FinancialOperation} {after : Db}
    → claim_financial m session purchase expected request db ≡ ok (shown, after)
    → KeepsReceipts db after
claim_financial-keeps m session purchase expected request db {shown} {after} h =
    let run = claim_run m session purchase expected request db h in
    elim run.outcome [
      | inl silent ↦ KeepsReceipts-same db after (ap (λ (d : Db). d.works) silent.1)
      | inr sent ↦
          subst (λ d. KeepsReceipts db d) (sym sent.written)
            (claim_rows-keeps m purchase request run.row run.op db)
    ]

not_sent_rest-keeps :
    (m : Moment) (expected : FinancialOperation) (db : Db) (row : PurchaseIntent) (op : Operation)
    {after : Db}
    → not_sent_rest m expected db row op ≡ ok after
    → KeepsReceipts db after
unfolding not_sent_rest keeps_send
not_sent_rest-keeps m expected db row op {after} h =
    elim (Option-cases (recovery_work db op.create_operation_id)) [
      | inl absent ↦ KeepsReceipts-same db after (ground arith)
      | inr (work, found) ↦
          let same_or : (after ≡ db)
              ⊎ (after.works
                  ≡ put (λ w. w.coalescing_key)
                      (record work {
                        work_state = WorkState.done;
                        last_failure = some not_sent_failure;
                      })
                      db.works) =
            ground arith in
          elim same_or [
            | inl same ↦ KeepsReceipts-same db after (ap (λ (d : Db). d.works) same)
            | inr written ↦
                KeepsReceipts-put db after op.create_operation_id work _ found refl (λ t e. e)
                  written
          ]
    ]

pub proven_not_sent-keeps :
    (m : Moment) (purchase : Purchase) (expected : FinancialOperation) (db : Db) {after : Db}
    → Recovery.proven_not_sent m purchase expected db ≡ ok after
    → KeepsReceipts db after
unfolding Recovery.proven_not_sent
proven_not_sent-keeps m purchase expected db h =
    let (row, op, _, _, run) =
      with_operation-eq-ok m db purchase expected (not_sent_rest m expected db) h in
    not_sent_rest-keeps m expected db row op run

pub record_receipt-keeps :
    (m : Moment) (purchase : Purchase) (expected : FinancialOperation) (provider_id : ℤ) (db : Db)
    {after : Db}
    → record_receipt m purchase expected provider_id db ≡ ok after
    → KeepsReceipts db after
unfolding receipt_fits
record_receipt-keeps m purchase expected provider_id db {after} h =
    let r = record_receipt-Recorded m purchase expected provider_id db h in
    KeepsReceipts-put db after expected.id r.work
      (record r.work { candidate_id = text (str r.provider) }) r.stored refl
      (λ t e. ap text (
        sym
          (text_eq→eq t (str r.provider) (subst (λ c. receipt_fits r.provider c ≡ true) e r.fits))))
      (ap (λ (d : Db). d.works) r.written)
