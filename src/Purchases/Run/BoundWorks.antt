-- ===== src/Purchases/Run/BoundWorks.antt =====
-- What a binding, or the conflict that it records, does to the recovery items.
use payments_portal.Purchases.Run.Settled.{financial_pending-keeps}
use payments_portal.Purchases.Recovery.{provider_number, financial_pending}
use payments_portal.Purchases.Evolution.{op_key}
use payments_portal.Purchases.Locking.{with_operation-eq-ok}
use payments_portal.Base.Int.{ℤ}
use payments_portal.Purchases.Run.Works.{KeepsReceipts, KeepsReceipts-same, KeepsReceipts-put}
use payments_portal.Purchases.Contracts.{Purchase, FinancialOperation, purchase_pending}
use payments_portal.Purchases.Bind.{
  bound_rows, linked_or_new, link_subscription, bind_rest, bind_once, bind_financial,
  after_conflict, after_binding, bound_to, admit_binding, released, breaks_binding, finish_work,
}
use payments_portal.Base.{
  ◌≡◌, ok, err, refl, true, inl, inr, ap, arith, none, some, ℕ, Option, List, Text, Bool,
  Result-cases, >>=-eq-ok, or_raise, find?, Bool-cases, check,
}
use payments_portal.Store.{
  Moment, Db, Operation, Work, Outcome, recovery_work, PurchaseIntent, save_operation,
  PreparedObservation, integrity_error, Subscription, operations, kind_eq, agreement, subscription,
  stop_iteration, is_bound, purchase_pending, WorkState,
}
use payments_portal.Store.Tables.{put}

finish_work-keeps :
    (id : ℕ) (work : Option Work) (db : Db)
    → recovery_work db id ≡ work
    → KeepsReceipts db (finish_work work db)
finish_work-keeps id none db found = KeepsReceipts-same db db refl
finish_work-keeps id (some work) db found =
    KeepsReceipts-put db (finish_work (some work) db) id work
      (record work { work_state = WorkState.done }) found refl (λ t e. e) refl

bound_rows-keeps :
    (m : Moment) (row : PurchaseIntent) (op op' : Operation) (ops : List Operation) (db : Db)
    → KeepsReceipts db (bound_rows m row op op' ops db)
unfolding bound_rows recovery_work
bound_rows-keeps m row op op' ops db k t h =
    finish_work-keeps op.create_operation_id (recovery_work db op.create_operation_id)
      (save_operation op' db) refl k t h

linked_or_new-works :
    (m : Moment) (row : PurchaseIntent) (agreement_id : Option Text) (provider : ℕ)
    (seen : PreparedObservation) (broken : Bool) (db : Db) {sub : Subscription} {after : Db}
    → linked_or_new m row agreement_id provider seen broken db ≡ ok (sub, after)
    → after.works ≡ db.works
unfolding linked_or_new
linked_or_new-works m row agreement_id provider seen broken db h = ground arith

link_subscription-works :
    (m : Moment) (row : PurchaseIntent) (ops : List Operation) (provider : ℕ)
    (observation : Option PreparedObservation) (broken : Bool) (db : Db) {after : Db}
    → link_subscription m row ops provider observation broken db ≡ ok after
    → after.works ≡ db.works
unfolding link_subscription
link_subscription-works m row ops provider observation broken db {after} h =
    let (contract, _, h1) =
      >>=-eq-ok (or_raise (find? (λ o. kind_eq o.operation_kind agreement) ops) stop_iteration) _
        h in
    let (_, _, h2) = >>=-eq-ok (check (is_bound contract.operation_state) purchase_pending) _ h1 in
    let (seen, _, h3) = >>=-eq-ok (or_raise observation purchase_pending) _ h2 in
    let ((sub, db'), made, h4) =
      >>=-eq-ok (linked_or_new m row contract.bound_external_object_id provider seen broken db) _
        h3 in
    let same =
      linked_or_new-works m row contract.bound_external_object_id provider seen broken db made in
    ground (arith, same, h4)

bind_rest-keeps :
    (m : Moment) (purchase : Purchase) (expected : FinancialOperation) (provider : ℕ)
    (observation : Option PreparedObservation) (db : Db) (row : PurchaseIntent) (op : Operation)
    {after : Db}
    → bind_rest m purchase expected provider observation db row op ≡ ok after
    → KeepsReceipts db after
unfolding bind_rest
bind_rest-keeps m purchase expected provider observation db row op {after} h k t e =
    let op' = bound_to m provider op in
    let ops' = put op_key op' (operations db purchase.id) in
    let db' = bound_rows m row op op' ops' db in
    let kept = bound_rows-keeps m row op op' ops' db k t e in
    let (_, _, h1) = >>=-eq-ok (admit_binding row op expected provider db) _ h in
    let same : after.works ≡ db'.works =
      elim (Bool-cases (kind_eq op.operation_kind subscription)) [
        | inl sub ↦
            link_subscription-works m (released m ops' row) ops' provider observation
              (breaks_binding op' db.operations) db' (rw sub at h1)
        | inr other ↦ let e : after ≡ db' = ground arith in ap (λ (d : Db). d.works) e
      ] in
    KeepsReceipts-same db' after same k t kept

bind_once-keeps :
    (m : Moment) (purchase : Purchase) (expected : FinancialOperation) (provider : ℕ)
    (observation : Option PreparedObservation) (db : Db) {after : Db}
    → bind_once m purchase expected provider observation db ≡ ok after
    → KeepsReceipts db after
unfolding bind_once
bind_once-keeps m purchase expected provider observation db h =
    let (row, op, _, _, run) =
      with_operation-eq-ok m db purchase expected
        (bind_rest m purchase expected provider observation db) h in
    bind_rest-keeps m purchase expected provider observation db row op run

after_conflict-keeps :
    (db : Db) (conflict : Outcome Db)
    → ((recorded : Db) → conflict ≡ ok recorded → KeepsReceipts db recorded)
    → KeepsReceipts db (after_conflict conflict db).1
after_conflict-keeps db (ok recorded) h = h recorded refl
after_conflict-keeps db (err e) h = KeepsReceipts-same db db refl

after_binding-keeps :
    (db : Db) (binding conflict : Outcome Db)
    → ((next : Db) → binding ≡ ok next → KeepsReceipts db next)
    → ((recorded : Db) → conflict ≡ ok recorded → KeepsReceipts db recorded)
    → KeepsReceipts db (after_binding binding conflict db).1
after_binding-keeps db (ok next) conflict b c = b next refl
after_binding-keeps db (err integrity_error) conflict b c = after_conflict-keeps db conflict c
after_binding-keeps db (err e) conflict b c = KeepsReceipts-same db db refl

pub bind_financial-keeps :
    (m m' : Moment) (purchase : Purchase) (expected : FinancialOperation) (provider_id : ℤ)
    (observation : Option PreparedObservation) (db : Db)
    → KeepsReceipts db (bind_financial m m' purchase expected provider_id observation db).1
unfolding bind_financial
bind_financial-keeps m m' purchase expected provider_id observation db =
    elim (Result-cases (provider_number provider_id)) [
      | inr (e, refused) ↦ rw (refused, bind_financial) (KeepsReceipts-same db db refl)
      | inl (provider, valid) ↦
          rw (valid, bind_financial)
            (after_binding-keeps db (bind_once m purchase expected provider observation db)
              (financial_pending m' purchase expected true none db)
              (λ next e. bind_once-keeps m purchase expected provider observation db e)
              (λ recorded e. financial_pending-keeps m' purchase expected true none db e))
    ]
