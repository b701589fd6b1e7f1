-- ===== src/Purchases/Recovery/Receipts.antt =====
-- What a `record_receipt` that returns has read and written.
use payments_portal.Purchases.Claim.Fence.{next_operation-id}
use payments_portal.Store.Tables.{get-key, get, put, get-put_self}
use payments_portal.Purchases.Locking.{with_operation-eq-ok}
use payments_portal.Base.{
  ◌≡◌, ℕ, ok, some, ap, >>=-eq-ok, str, true, arith, err, check, str-injective, sym, opt_eq, subst,
  text_eq→eq, ◌&&◌, or_raise, or_raise-eq-ok,
}
use payments_portal.Base.Int.{ℤ, pos, negsuc}
use payments_portal.Store.{
  Db, recovery_work, Moment, Work, Outcome, text, purchase_pending, purchase_review_required,
  operations, is_in_flight, save_work,
}
use payments_portal.Purchases.Recovery.{
  provider_number, record_receipt, receipt_fits, ℤ, receipt_rest, ℕ, Work, Outcome, text,
  operations,
}
use payments_portal.Purchases.Contracts.{
  FinancialOperation, Purchase, purchase_pending, purchase_review_required,
}

-- What a recorded receipt has read and written.
pub record Recorded (expected : FinancialOperation) (provider_id : ℤ) (db after : Db) : Type 0 where
  pub provider : ℕ
  pub work : Work
  pub is_number : provider_id ≡ pos provider
  pub stored : recovery_work db expected.id ≡ some work
  pub fits : receipt_fits provider work.candidate_id ≡ true
  pub written : after ≡ save_work (record work { candidate_id = text (str provider) }) db

provider_number-pos : (z : ℤ) {n : ℕ} → provider_number z ≡ ok n → z ≡ pos n
unfolding provider_number
provider_number-pos (pos k) h = ground arith
provider_number-pos (negsuc k) h = cc h

db-injective : {a b : Db} → ◌≡◌ {A = Outcome Db} (ok a) (ok b) → a ≡ b
db-injective {a} h = ap (λ r. elim r [ ok x ↦ x | err e ↦ a ]) h

pub record_receipt-Recorded :
    (m : Moment) (purchase : Purchase) (expected : FinancialOperation) (provider_id : ℤ) (db : Db)
    {after : Db}
    → record_receipt m purchase expected provider_id db ≡ ok after
    → Recorded expected provider_id db after
unfolding record_receipt receipt_rest
record_receipt-Recorded m purchase expected provider_id db {after} h =
    let (provider, valid, h1) = >>=-eq-ok (provider_number provider_id) _ h in
    let (row, op, _, is_op, run) =
      with_operation-eq-ok m db purchase expected (receipt_rest expected provider db) h1 in
    let (_, _, h2) =
      >>=-eq-ok
        (check
          (opt_eq op.send_fence expected.fence
            && (expected.may_send && is_in_flight op.operation_state))
          purchase_pending)
        _ run in
    let (work, is_work, h3) =
      >>=-eq-ok (or_raise (recovery_work db op.create_operation_id) purchase_review_required) _
        h2 in
    let (_, fits, h4) =
      >>=-eq-ok (check (receipt_fits provider work.candidate_id) purchase_review_required) _ h3 in
    record {
      provider = provider;
      work = work;
      is_number = provider_number-pos provider_id valid;
      stored =
          subst (λ id. recovery_work db id ≡ some work)
            (next_operation-id expected.id (operations db purchase.id) is_op)
            (or_raise-eq-ok (recovery_work db op.create_operation_id) purchase_review_required
              is_work);
      fits = ground (arith, fits);
      written = sym (db-injective h4);
    }

-- A receipt leaves the recovery item with its number.
pub Recorded-work :
    (expected : FinancialOperation) (provider_id : ℤ) (db : Db) {after : Db}
    (r : Recorded expected provider_id db after)
    → recovery_work after expected.id
      ≡ some (record r.work { candidate_id = text (str r.provider) })
unfolding recovery_work
Recorded-work expected provider_id db {after} r =
    let key = λ (w : Work). w.coalescing_key in
    let new = record r.work { candidate_id = text (str r.provider) } in
    let same = get-key key expected.id db.works r.stored in
    let found : get key (key new) db.works ≡ some r.work =
      subst (λ k. get key k db.works ≡ some r.work) (sym same) r.stored in
    subst (λ (d : Db). get key expected.id d.works ≡ some new) (sym r.written)
      (subst (λ k. get key k (put key new db.works) ≡ some new) same
        (get-put_self key new db.works {old = r.work} found))

pub receipt_fits-same : (a b : ℕ) → receipt_fits a (text (str b)) ≡ true → b ≡ a
unfolding receipt_fits
receipt_fits-same a b h = str-injective b a (text_eq→eq (str b) (str a) h)
