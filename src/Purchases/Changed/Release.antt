-- ===== src/Purchases/Changed/Release.antt =====
-- A purchase's scope is released only where nothing can have reached the provider.
use payments_portal.Purchases.Recovery.Advances.{review-operations, refenced-Evolves_review}
use payments_portal.Purchases.Evolution.{
  op_key, Advances, Advances-same, Advances-put, operations-find-get,
}
use payments_portal.Store.Tables.{IsKeyed}
use payments_portal.Purchases.Recovery.{review, refenced}
use payments_portal.Purchases.Snapshot.{operation_snapshots}
use payments_portal.Purchases.Locking.{locked}
use payments_portal.Purchases.Changed.{
  changed_unsent_terms, PurchaseIntent, has_external_effect, locked, operation_snapshots, kind_eq,
  subscription, review, accepted_terms_changed_after_preparation, delete_hold, failed_intent,
  changed_rest, FinancialOperation, is_superseded, stop_iteration, is_filled, State, operations_eq,
  changed_current,
}
use payments_portal.Purchases.Contracts.{Purchase, FinancialOperation}
use payments_portal.Base.{
  ℕ, ◌≡◌, ◌⊎◌, inl, inr, refl, sym, ◌∙◌, subst, ok, true, >>=-eq-ok, find?, some, false, List,
  Bool-cases, arith, or_raise, or_raise-eq-ok, Text, All, ap, none, find?-select-not, ◌∷◌, ◌==◌,
  ◌&&◌, text_eq, [], select, Bool, select_twice, not, check,
}
use payments_portal.Store.{
  Moment, Db, Operation, operations, PurchaseIntent, kind_eq, subscription,
  accepted_terms_changed_after_preparation, stop_iteration, hold, ReasonCode, State, open_case,
  is_open_send, save_intent, ScopeHold, lock_user, owned, purchase_not_found,
  purchase_scope_released,
}

-- The three outcomes of `changed_unsent_terms`.
abbrev WasReviewed : Moment → Purchase → Db → PurchaseIntent → Db → Type 0
WasReviewed m purchase db row after =
    (target : Operation) × (has_external_effect (operations db purchase.id) ≡ true)
    × (find? (λ o. kind_eq o.operation_kind subscription) (operations db purchase.id) ≡ some target)
    × (after ≡ review m row target accepted_terms_changed_after_preparation db)

abbrev WasEnded : Moment → Purchase → Db → PurchaseIntent → Db → Type 0
WasEnded m purchase db row after =
    (has_external_effect (operations db purchase.id) ≡ false)
    × (after ≡ delete_hold row.user_id row.product_id (save_intent (failed_intent m row) db))

changed_rest_cases :
    (m : Moment) (purchase : Purchase) (db : Db) (row : PurchaseIntent)
    (shown : List FinancialOperation) {after : Db}
    → changed_rest m purchase db row shown ≡ ok after
    → (after ≡ db) ⊎ WasReviewed m purchase db row after ⊎ WasEnded m purchase db row after
unfolding changed_rest
changed_rest_cases m purchase db row shown {after} h =
    let ops = operations db purchase.id in
    elim (Bool-cases (operations_eq shown purchase.operations)) [
      | inr old ↦ inl (ground arith)
      | inl current ↦ elim (Bool-cases (has_external_effect ops)) [
        | inl sent ↦
            let (target, is_target, e) =
              >>=-eq-ok
                (or_raise (find? (λ o. kind_eq o.operation_kind subscription) ops) stop_iteration) _
                (rw (current, sent, changed_rest) at h) in
            inr (inl (target, sent, or_raise-eq-ok _ stop_iteration is_target, ground arith))
        | inr unsent ↦ inr (inr (unsent, ground arith))
      ]
    ]

pub changed_current_cases :
    (m : Moment) (purchase : Purchase) (db : Db) (row : PurchaseIntent) {after : Db}
    → changed_current m purchase db row ≡ ok after
    → (after ≡ db) ⊎ WasReviewed m purchase db row after ⊎ WasEnded m purchase db row after
unfolding changed_current
changed_current_cases m purchase db row {after} h = elim (Bool-cases (is_superseded purchase row)) [
  | inl old ↦ inl (ground arith)
  | inr current ↦
      let (shown, _, h1) =
        >>=-eq-ok (operation_snapshots db (operations db purchase.id))
          (λ shown. changed_rest m purchase db row shown) (rw (current, changed_current) at h) in
      changed_rest_cases m purchase db row shown h1
]

delete_hold-operations :
    (user_id : ℕ) (product_id : Text) (db : Db)
    → (delete_hold user_id product_id db).operations ≡ db.operations
unfolding delete_hold
delete_hold-operations user_id product_id db = refl

-- Over `changed_unsent_terms` every operation that the tables hold evolves soundly.
pub changed_unsent_terms-Advances :
    (m : Moment) (purchase : Purchase) (db : Db) {after : Db}
    → IsKeyed op_key db.operations
    → changed_unsent_terms m purchase db ≡ ok after
    → Advances false db after
unfolding changed_unsent_terms
changed_unsent_terms-Advances m purchase db {after} keyed h =
    let (row, is_row, run) = >>=-eq-ok (locked m db purchase) _ h in
    elim (changed_current_cases m purchase db row run) [
      | inl same ↦ Advances-same false db after keyed (ap (λ (d : Db). d.operations) same)
      | inr (inl (target, _, found, written)) ↦
          Advances-put false db after target (refenced m State.manual_review target) keyed
            (operations-find-get db purchase.id (λ o. kind_eq o.operation_kind subscription) keyed
              found)
            (ap (λ (d : Db). d.operations) written
              ∙ review-operations m row target accepted_terms_changed_after_preparation db)
            refl (refenced-Evolves_review m target)
      | inr (inr (_, written)) ↦ Advances-same false db after keyed (
          ap (λ (d : Db). d.operations) written
          ∙ delete_hold-operations row.user_id row.product_id
              (save_intent (failed_intent m row) db))
    ]

-- A hold of another user or of another product.
abbrev is_other_hold : ℕ → Text → ScopeHold → Bool
is_other_hold user_id product_id h = not ((h.user_id == user_id) && text_eq h.product_id product_id)

-- What ends a purchase: no operation of it was sent or bound, its hold is gone and every other user's
-- and product's hold is kept, and the operations stay as they are.
pub record EndsUnsent (m : Moment) (purchase : Purchase) (db after : Db) (row : PurchaseIntent)
    : Type 0 where
  pub is_locked : locked m db purchase ≡ ok row
  pub never_sent :
      All
        (λ o.
          (is_open_send o.operation_state ≡ true) × (is_filled o.bound_external_object_id ≡ false))
        (operations db purchase.id)
  pub was_held :
      (scope : ScopeHold) × (hold db row.user_id row.product_id ≡ some scope)
      × (scope.purchase_intent_id ≡ row.purchase_intent_id)
  pub hold_gone : hold after row.user_id row.product_id ≡ none
  pub others_held :
      select (λ h. is_other_hold row.user_id row.product_id h) after.holds
      ≡ select (λ h. is_other_hold row.user_id row.product_id h) db.holds
  pub same_operations : after.operations ≡ db.operations

has_external_effect-false :
    (ops : List Operation)
    → has_external_effect ops ≡ false
    → All
        (λ o.
          (is_open_send o.operation_state ≡ true) × (is_filled o.bound_external_object_id ≡ false))
        ops
unfolding has_external_effect
has_external_effect-false [] h = tt
has_external_effect-false (o ∷ ops) h = (ground arith, has_external_effect-false ops (ground arith))

review-holds :
    (m : Moment) (row : PurchaseIntent) (op : Operation) (reason : ReasonCode) (db : Db)
    → (review m row op reason db).holds ≡ db.holds
unfolding review open_case
review-holds m row op reason db = ground arith

delete_hold-others :
    (user_id : ℕ) (product_id : Text) (db : Db)
    → select (λ h. is_other_hold user_id product_id h) (delete_hold user_id product_id db).holds
      ≡ select (λ h. is_other_hold user_id product_id h) db.holds
unfolding delete_hold
delete_hold-others user_id product_id db =
    select_twice (λ h. is_other_hold user_id product_id h) db.holds

-- A purchase that is locked has the hold of its user and product.
locked-hold :
    (m : Moment) (db : Db) (purchase : Purchase) {row : PurchaseIntent}
    → locked m db purchase ≡ ok row
    → (scope : ScopeHold) × (hold db row.user_id row.product_id ≡ some scope)
      × (scope.purchase_intent_id ≡ row.purchase_intent_id)
unfolding locked
locked-hold m db purchase {row} h =
    let (_, _, h1) = >>=-eq-ok (lock_user m) _ h in
    let (found, _, h2) =
      >>=-eq-ok (or_raise (owned db purchase.user_id purchase.id) purchase_not_found) _ h1 in
    let (scope, is_scope, h3) =
      >>=-eq-ok (or_raise (hold db found.user_id found.product_id) purchase_scope_released) _ h2 in
    let (_, own, h4) =
      >>=-eq-ok
        (check (scope.purchase_intent_id == found.purchase_intent_id) purchase_scope_released) _
        h3 in
    let same : found ≡ row = ground (arith, h4) in
    let owns : scope.purchase_intent_id ≡ found.purchase_intent_id = ground (arith, own) in
    subst
      (λ (r : PurchaseIntent).
        (scope : ScopeHold) × (hold db r.user_id r.product_id ≡ some scope)
        × (scope.purchase_intent_id ≡ r.purchase_intent_id))
      same (scope, or_raise-eq-ok _ purchase_scope_released is_scope, owns)

hold-delete_hold :
    (user_id : ℕ) (product_id : Text) (db : Db)
    → hold (delete_hold user_id product_id db) user_id product_id ≡ none
unfolding hold delete_hold
hold-delete_hold user_id product_id db =
    find?-select-not (λ h. (h.user_id == user_id) && text_eq h.product_id product_id) db.holds

-- When `changed_unsent_terms` returns, every scope hold is kept, or it has released the scope that
-- this purchase held and every other user's and product's hold is kept, none of the purchase's
-- operations was sent or bound, and the operations are as they were.
pub changed_unsent_terms-releases :
    (m : Moment) (purchase : Purchase) (db : Db) {after : Db}
    → changed_unsent_terms m purchase db ≡ ok after
    → (after.holds ≡ db.holds) ⊎ ((row : PurchaseIntent) × EndsUnsent m purchase db after row)
unfolding changed_unsent_terms
changed_unsent_terms-releases m purchase db {after} h =
    let (row, is_row, run) = >>=-eq-ok (locked m db purchase) _ h in
    elim (changed_current_cases m purchase db row run) [
      | inl same ↦ inl (ap (λ (d : Db). d.holds) same)
      | inr (inl (target, _, _, written)) ↦ inl (
          ap (λ (d : Db). d.holds) written
          ∙ review-holds m row target accepted_terms_changed_after_preparation db)
      | inr (inr (unsent, written)) ↦
          let ended = save_intent (failed_intent m row) db in
          inr (
            row,
            record {
              is_locked = is_row;
              never_sent = has_external_effect-false (operations db purchase.id) unsent;
              was_held = locked-hold m db purchase is_row;
              others_held =
                  ap (λ (d : Db). select (λ h. is_other_hold row.user_id row.product_id h) d.holds)
                    written
                  ∙ delete_hold-others row.user_id row.product_id ended;
              hold_gone =
                  subst (λ (d : Db). hold d row.user_id row.product_id ≡ none) (sym written)
                    (hold-delete_hold row.user_id row.product_id ended);
              same_operations =
                  ap (λ (d : Db). d.operations) written
                  ∙ delete_hold-operations row.user_id row.product_id ended;
            },
          )
    ]
