-- ===== src/Purchases/Bind/Advances.antt =====
-- Binding is for good: what `bind_financial` writes, and that it never changes a bound identity.
use payments_portal.Purchases.Recovery.Advances.{financial_pending-Advances}
use payments_portal.Purchases.Recovery.{provider_number, financial_pending}
use payments_portal.Purchases.Locking.{with_operation-eq-ok}
use payments_portal.Base.Int.{ℤ}
use payments_portal.Purchases.Evolution.{
  IsSound, op_key, Evolves, Advances, Advances-put, operations-get, Advances-same,
}
use payments_portal.Store.Tables.{put, IsKeyed}
use payments_portal.Purchases.Contracts.{Purchase, FinancialOperation}
use payments_portal.Purchases.Bind.{
  bound_rows, linked_or_new, link_subscription, bind_rest, admit_binding, PurchaseIntent, Purchase,
  bound_to, FinancialOperation, put, PreparedObservation, Subscription, breaks_binding, kind_eq,
  integrity_error, agreement, stop_iteration, subscription, released, purchase_pending, bind_once,
  Outcome, bind_financial, ℤ, after_conflict, after_binding, provider_number, financial_pending,
}
use payments_portal.Base.{
  ℕ, ◌≡◌, inl, inr, ◌∙◌, ok, List, Option, Text, >>=-eq-ok, arith, or_raise, false, Option-cases,
  find?, text_eq→eq, str, Bool-cases, check, ap, Result-cases, err, true, none, refl, Bool,
}
use payments_portal.Store.{
  Moment, Db, Operation, operations, PurchaseIntent, PreparedObservation, Subscription, kind_eq,
  integrity_error, agreement, stop_iteration, subscription, purchase_pending, Outcome, is_bound,
}

bound_rows-operations :
    (m : Moment) (row : PurchaseIntent) (op op' : Operation) (ops : List Operation) (db : Db)
    → (bound_rows m row op op' ops db).operations ≡ put op_key op' db.operations
unfolding bound_rows
bound_rows-operations m row op op' ops db = ground arith

linked_or_new-operations :
    (m : Moment) (row : PurchaseIntent) (agreement_id : Option Text) (provider : ℕ)
    (seen : PreparedObservation) (broken : Bool) (db : Db) {sub : Subscription} {after : Db}
    → linked_or_new m row agreement_id provider seen broken db ≡ ok (sub, after)
    → after.operations ≡ db.operations
unfolding linked_or_new
linked_or_new-operations m row agreement_id provider seen broken db h = ground arith

link_subscription-operations :
    (m : Moment) (row : PurchaseIntent) (ops : List Operation) (provider : ℕ)
    (observation : Option PreparedObservation) (broken : Bool) (db : Db) {after : Db}
    → link_subscription m row ops provider observation broken db ≡ ok after
    → (broken ≡ false) × (after.operations ≡ db.operations)
unfolding link_subscription
link_subscription-operations m row ops provider observation broken db {after} h =
    let (contract, _, h1) =
      >>=-eq-ok (or_raise (find? (λ o. kind_eq o.operation_kind agreement) ops) stop_iteration) _
        h in
    let (_, _, h2) = >>=-eq-ok (check (is_bound contract.operation_state) purchase_pending) _ h1 in
    let (seen, _, h3) = >>=-eq-ok (or_raise observation purchase_pending) _ h2 in
    let ((sub, db'), made, h4) =
      >>=-eq-ok (linked_or_new m row contract.bound_external_object_id provider seen broken db) _
        h3 in
    let same =
      linked_or_new-operations m row contract.bound_external_object_id provider seen broken db
        made in
    ground (arith, same, h4)

pub bind_rest-operations :
    (m : Moment) (purchase : Purchase) (expected : FinancialOperation) (provider : ℕ)
    (observation : Option PreparedObservation) (db : Db) (row : PurchaseIntent) (op : Operation)
    {after : Db}
    → bind_rest m purchase expected provider observation db row op ≡ ok after
    → (admit_binding row op expected provider db ≡ ok tt)
      × (breaks_binding (bound_to m provider op) db.operations ≡ false)
      × (after.operations ≡ put op_key (bound_to m provider op) db.operations)
unfolding bind_rest
bind_rest-operations m purchase expected provider observation db row op {after} h =
    let op' = bound_to m provider op in
    let ops' = put op_key op' (operations db purchase.id) in
    let db' = bound_rows m row op op' ops' db in
    let rows = bound_rows-operations m row op op' ops' db in
    let (_, admitted, h1) = >>=-eq-ok (admit_binding row op expected provider db) _ h in
    elim (Bool-cases (kind_eq op.operation_kind subscription)) [
      | inl sub ↦
          let (free, same) =
            link_subscription-operations m (released m ops' row) ops' provider observation
              (breaks_binding op' db.operations) db' (rw sub at h1) in
          (admitted, free, same ∙ rows)
      | inr other ↦
          let free : breaks_binding op' db.operations ≡ false = ground arith in
          let e : after ≡ db' = ground arith in
          (admitted, free, ap (λ (d : Db). d.operations) e ∙ rows)
    ]

bound_to-Evolves :
    (m : Moment) (row : PurchaseIntent) (op : Operation) (expected : FinancialOperation)
    (provider : ℕ) (db : Db)
    → admit_binding row op expected provider db ≡ ok tt
    → IsSound op
    → Evolves false op (bound_to m provider op) × IsSound (bound_to m provider op)
unfolding admit_binding bound_to
bound_to-Evolves m row op expected provider db h s =
    elim (Option-cases op.bound_external_object_id) [
      | inl free ↦ ground arith
      | inr (t, bound) ↦ ground (arith, text_eq→eq t (str provider))
    ]

bind_once-Advances :
    (m : Moment) (purchase : Purchase) (expected : FinancialOperation) (provider : ℕ)
    (observation : Option PreparedObservation) (db : Db) {after : Db}
    → IsKeyed op_key db.operations
    → bind_once m purchase expected provider observation db ≡ ok after
    → Advances false db after
unfolding bind_once bound_to
bind_once-Advances m purchase expected provider observation db {after} keyed h =
    let (row, op, _, is_op, run) =
      with_operation-eq-ok m db purchase expected
        (bind_rest m purchase expected provider observation db) h in
    let (admitted, _, written) =
      bind_rest-operations m purchase expected provider observation db row op run in
    Advances-put false db after op (bound_to m provider op) keyed
      (operations-get db purchase.id expected.id keyed is_op) written refl
      (bound_to-Evolves m row op expected provider db admitted)

after_conflict-Advances :
    (db : Db) (conflict : Outcome Db)
    → IsKeyed op_key db.operations
    → ((recorded : Db) → conflict ≡ ok recorded → Advances false db recorded)
    → Advances false db (after_conflict conflict db).1
after_conflict-Advances db (ok recorded) keyed h = h recorded refl
after_conflict-Advances db (err e) keyed h = Advances-same false db db keyed refl

after_binding-Advances :
    (db : Db) (binding conflict : Outcome Db)
    → IsKeyed op_key db.operations
    → ((next : Db) → binding ≡ ok next → Advances false db next)
    → ((recorded : Db) → conflict ≡ ok recorded → Advances false db recorded)
    → Advances false db (after_binding binding conflict db).1
after_binding-Advances db (ok next) conflict keyed b c = b next refl
after_binding-Advances db (err integrity_error) conflict keyed b c =
    after_conflict-Advances db conflict keyed c
after_binding-Advances db (err e) conflict keyed b c = Advances-same false db db keyed refl

-- Where operations are stored under their identities, over `bind_financial`, whether it returns or
-- raises, they stay so and every sound operation evolves soundly, and none becomes open for a
-- send.
pub bind_financial-Advances :
    (m m' : Moment) (purchase : Purchase) (expected : FinancialOperation) (provider_id : ℤ)
    (observation : Option PreparedObservation) (db : Db)
    → IsKeyed op_key db.operations
    → Advances false db (bind_financial m m' purchase expected provider_id observation db).1
unfolding bind_financial
bind_financial-Advances m m' purchase expected provider_id observation db keyed =
    elim (Result-cases (provider_number provider_id)) [
      | inr (e, refused) ↦ rw (refused, bind_financial) (Advances-same false db db keyed refl)
      | inl (provider, valid) ↦
          rw (valid, bind_financial)
            (after_binding-Advances db (bind_once m purchase expected provider observation db)
              (financial_pending m' purchase expected true none db) keyed
              (λ next e. bind_once-Advances m purchase expected provider observation db keyed e)
              (λ recorded e. financial_pending-Advances m' purchase expected true none db keyed e))
    ]
