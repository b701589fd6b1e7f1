-- ===== src/Purchases/Run/Settled.antt =====
-- What failed reads, changed terms and escalations do to the recovery items.
use payments_portal.Purchases.Snapshot.{candidate_of}
use payments_portal.Purchases.Changed.Release.{changed_current_cases}
use payments_portal.Purchases.Locking.{with_operation-eq-ok, locked}
use payments_portal.Purchases.Run.Works.{KeepsReceipts, KeepsReceipts-same, KeepsReceipts-put}
use payments_portal.Purchases.Escalate.{escalate_rest, escalate_operation}
use payments_portal.Purchases.Contracts.{Purchase, FinancialOperation}
use payments_portal.Purchases.Recovery.{
  review, settle, demoted, pending_rest, financial_pending, or_failure,
}
use payments_portal.Base.{
  ◌≡◌, ◌∙◌, ok, refl, inl, inr, ap, sym, arith, none, some, Option, Bool, ℕ, Text, >>=-eq-ok,
  Bool-cases, opt_eq, Option-cases, subst,
}
use payments_portal.Store.{
  Moment, Db, Operation, Work, open_case, recovery_work, PurchaseIntent, Failure, ReasonCode,
  financial_binding_conflict, financial_recovery_deadline, external_create_outcome_unknown,
  is_bound, accepted_terms_changed_after_preparation, save_intent, WorkState, text,
}
use payments_portal.Store.Tables.{get}
use payments_portal.Purchases.Changed.{changed_unsent_terms, delete_hold, failed_intent}

review-works :
    (m : Moment) (row : PurchaseIntent) (op : Operation) (reason : ReasonCode) (db : Db)
    → (review m row op reason db).works ≡ db.works
unfolding review open_case
review-works m row op reason db = ground arith

settle-keeps :
    (m : Moment) (facts : Option Failure) (id : ℕ) (work : Option Work) (op : Operation) (db : Db)
    → recovery_work db id ≡ work
    → KeepsReceipts db (settle m facts work op db)
unfolding settle
settle-keeps m facts id none op db found = KeepsReceipts-same db db refl
settle-keeps m facts id (some work) op db found = elim (Bool-cases (is_bound op.operation_state)) [
  | inl bound ↦
      KeepsReceipts-put db (settle m facts (some work) op db) id work
        (record work {
          work_state = WorkState.pending;
          next_attempt_at = m.now;
          last_failure = or_failure facts work.last_failure;
        })
        found refl (λ t e. e) (rw bound refl)
  | inr other ↦
      KeepsReceipts-put db (settle m facts (some work) op db) id work
        (record work { last_failure = or_failure facts work.last_failure }) found refl (λ t e. e)
        (rw other refl)
]

demoted-works :
    (m : Moment) (conflict : Bool) (deadline : Option ℕ) (row : PurchaseIntent) (op : Operation)
    (db : Db) {op' : Operation} {after : Db}
    → demoted m conflict deadline row op db ≡ some (op', after)
    → after.works ≡ db.works
unfolding demoted
demoted-works m conflict deadline row op db {op'} {after} h = ground (
  arith,
  review-works m row op financial_binding_conflict db,
  review-works m row op (external_create_outcome_unknown op.operation_kind) db,
)

pending_rest-keeps :
    (m : Moment) (expected : FinancialOperation) (conflict : Bool) (facts : Option Failure)
    (db : Db) (row : PurchaseIntent) (op : Operation) {after : Db}
    → pending_rest m expected conflict facts db row op ≡ ok after
    → KeepsReceipts db after
unfolding pending_rest recovery_work
pending_rest-keeps m expected conflict facts db row op {after} h =
    let id = op.create_operation_id in
    let work = recovery_work db id in
    let deadline = financial_recovery_deadline op work in
    elim (Bool-cases (opt_eq op.send_fence expected.fence)) [
      | inr stale ↦ KeepsReceipts-same db after (ground arith)
      | inl current ↦ elim (Option-cases (demoted m conflict deadline row op db)) [
        | inl early ↦ KeepsReceipts-same db after (ground arith)
        | inr ((op', db'), went) ↦
            let settled : after ≡ settle m facts work op' db' = ground arith in
            let same = demoted-works m conflict deadline row op db went in
            let found : recovery_work db' id ≡ work =
              ap (λ works. get (λ (w : Work). w.coalescing_key) id works) same in
            λ k t e.
              subst (λ d. candidate_of (recovery_work d k) ≡ text t) (sym settled)
                (settle-keeps m facts id work op' db' found k t
                  (KeepsReceipts-same db db' same k t e))
      ]
    ]

pub financial_pending-keeps :
    (m : Moment) (purchase : Purchase) (expected : FinancialOperation) (conflict : Bool)
    (facts : Option Failure) (db : Db) {after : Db}
    → financial_pending m purchase expected conflict facts db ≡ ok after
    → KeepsReceipts db after
unfolding financial_pending
financial_pending-keeps m purchase expected conflict facts db h =
    let (row, op, _, _, run) =
      with_operation-eq-ok m db purchase expected (pending_rest m expected conflict facts db) h in
    pending_rest-keeps m expected conflict facts db row op run

delete_hold-works :
    (user_id : ℕ) (product_id : Text) (db : Db)
    → (delete_hold user_id product_id db).works ≡ db.works
unfolding delete_hold
delete_hold-works user_id product_id db = refl

pub changed_unsent_terms-keeps :
    (m : Moment) (purchase : Purchase) (db : Db) {after : Db}
    → changed_unsent_terms m purchase db ≡ ok after
    → KeepsReceipts db after
unfolding changed_unsent_terms
changed_unsent_terms-keeps m purchase db {after} h =
    let (row, _, run) = >>=-eq-ok (locked m db purchase) _ h in
    elim (changed_current_cases m purchase db row run) [
      | inl same ↦ KeepsReceipts-same db after (ap (λ (d : Db). d.works) same)
      | inr (inl (target, _, _, written)) ↦ KeepsReceipts-same db after (
          ap (λ (d : Db). d.works) written
          ∙ review-works m row target accepted_terms_changed_after_preparation db)
      | inr (inr (_, written)) ↦ KeepsReceipts-same db after (
          ap (λ (d : Db). d.works) written
          ∙ delete_hold-works row.user_id row.product_id (save_intent (failed_intent m row) db))
    ]

escalate_rest-works :
    (m : Moment) (instant : ℕ) (expected : FinancialOperation) (db : Db) (row : PurchaseIntent)
    (op : Operation) {escalated : Bool} {after : Db}
    → escalate_rest m instant expected db row op ≡ ok (escalated, after)
    → after.works ≡ db.works
unfolding escalate_rest
escalate_rest-works m instant expected db row op h =
    ground (arith, review-works m row op (external_create_outcome_unknown op.operation_kind) db)

pub escalate_operation-keeps :
    (m : Moment) (instant : ℕ) (purchase : Purchase) (expected : FinancialOperation) (db : Db)
    {escalated : Bool} {after : Db}
    → escalate_operation m instant purchase expected db ≡ ok (escalated, after)
    → KeepsReceipts db after
unfolding escalate_operation
escalate_operation-keeps m instant purchase expected db {escalated} {after} h =
    let (row, op, _, _, run) =
      with_operation-eq-ok m db purchase expected (escalate_rest m instant expected db) h in
    KeepsReceipts-same db after (escalate_rest-works m instant expected db row op run)
