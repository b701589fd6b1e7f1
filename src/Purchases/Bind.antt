-- ===== src/Purchases/Bind.antt =====
-- `_bind_financial` and `bind_financial` of apps/api/app/domains/purchases/financial.py: a point read
-- of the original object binds its identity to the operation, for good.
pub mod Advances
pub mod Identity
use payments_portal.Base.{
  opt_text_eq, ℕ, Bool, true, false, not, ◌&&◌, ◌||◌, Option, none, some, List, ◌∷◌, ◌==◌, any, all,
  find?, map, Text, text_eq, str, is_none, is_some, none_or, some_and, opt_eq, if◌then◌else◌,
  Result, ok, err, ◌>>=◌, ◌>>◌, check, raise_if, or_raise,
}
use payments_portal.Base.Int.{ℤ, pos, eq_ℤ}
use payments_portal.Store.{
  Error, Outcome, Moment, Db, Operation, Work, ReviewCase, Kind, agreement, subscription, State,
  IntentState, WorkState, PurchaseIntent, Subscription, PreparedObservation, StateObservation,
  Lifecycle, FinancialAccess, CommercialAccess, ReasonCode, external_create_outcome_unknown,
  kind_eq, operations, recovery_work, open_reviews, linked_subscription, purchase_pending,
  purchase_history_unproven, purchase_review_required, stop_iteration, integrity_error, reason_eq,
  in_review, is_bound, is_open_send, is_reviewed, save_intent, save_operation, save_work,
}
use payments_portal.Store.Tables.{put}
use payments_portal.Purchases.Contracts.{FinancialOperation, Purchase}
use payments_portal.Purchases.Snapshot.{financial_hint_schema, has_schema}
use payments_portal.Purchases.Locking.{with_operation, locked, next_operation, with_state}
use payments_portal.Purchases.Recovery.{provider_number, financial_pending}

-- A deadline escalation of the operation's own kind, which a point read resolves.
abbrev pub is_deadline_case : Operation → ReviewCase → Bool
is_deadline_case op c = reason_eq c.reason_code (external_create_outcome_unknown op.operation_kind)

-- The checks before the first assignment.
unfoldable pub admit_binding :
    PurchaseIntent → Operation → FinancialOperation → ℕ → Db → Outcome (Unit {0})
admit_binding row op expected provider db = do
  check (opt_eq op.send_fence expected.fence) purchase_pending
  raise_if
      (is_open_send op.operation_state
        || (is_none op.unknown_since || not (has_schema financial_hint_schema op)))
      purchase_history_unproven
  check (none_or (λ t. text_eq t (str provider)) op.bound_external_object_id)
      purchase_review_required
  raise_if
      ((is_reviewed op.operation_state && in_review row.state)
        && not (all (is_deadline_case op) (open_reviews db op.create_operation_id)))
      purchase_review_required

abbrev or_now : ℕ → Option ℕ → Option ℕ
or_now now none = some now
or_now now (some at) = some at

-- The operation's new columns. Only a real change of the binding takes a new fence.
unfoldable pub bound_to : Moment → ℕ → Operation → Operation
bound_to m provider op = record op {
  bound_external_object_id = some (str provider);
  operation_state = State.bound;
  resolved_at = or_now m.now op.resolved_at;
  send_fence = if is_bound op.operation_state then op.send_fence else some m.fence;
}

abbrev same_text : Option Text → Option Text → Bool
same_text (some s) (some t) = text_eq s t
same_text _ _ = false

-- The unique index `uq_financial_operation_binding`, checked when the row is flushed. The sessions
-- do not flush before a query (`autoflush=False`), so this is at the explicit flushes.
unfoldable pub breaks_binding : Operation → List Operation → Bool
breaks_binding op ops =
    any
      (λ o.
        (not (o.create_operation_id == op.create_operation_id)
          && kind_eq o.operation_kind op.operation_kind)
        && (same_text o.external_billing_account_id op.external_billing_account_id
            && same_text o.bound_external_object_id op.bound_external_object_id))
      ops

abbrev pub finish_work : Option Work → Db → Db
finish_work none db = db
finish_work (some work) db = save_work (record work { work_state = WorkState.done }) db

-- The open deadline cases of the operation are resolved by the point read.
unfoldable pub resolve_case : Moment → Operation → ReviewCase → ReviewCase
resolve_case m op c =
    if (c.is_open && (c.scope_reference == op.create_operation_id)) && is_deadline_case op c
    then record c { is_open = false; resolved_at = some m.now }
    else c

-- A purchase leaves review when none of its operations is in it.
unfoldable pub released : Moment → List Operation → PurchaseIntent → PurchaseIntent
released m ops row =
    if in_review row.state && not (any (λ o. is_reviewed o.operation_state) ops)
    then with_state m IntentState.preparing row
    else row

-- The part that every binding shares, up to the branch on the operation's kind.
unfoldable pub bound_rows :
    Moment → PurchaseIntent → Operation → Operation → List Operation → Db → Db
bound_rows m row op op' ops db =
    let saved = finish_work (recovery_work db op.create_operation_id) (save_operation op' db) in
    save_intent (released m ops row)
      (record saved { reviews = map (resolve_case m op') saved.reviews })

abbrev lifecycle_of : PreparedObservation → Lifecycle
lifecycle_of seen = if eq_ℤ seen.state (pos 2) then Lifecycle.active else Lifecycle.inactive

-- `uq_subscription_provider` and `uq_subscription_agreement`
unfoldable pub breaks_subscription : Subscription → List Subscription → Bool
breaks_subscription new subs =
    any
      (λ s.
        text_eq s.external_billing_account_id new.external_billing_account_id
        && (text_eq s.external_subscription_id new.external_subscription_id
            || same_text s.external_agreement_id new.external_agreement_id))
      subs

abbrev new_subscription :
    Moment → PurchaseIntent → Option Text → ℕ → PreparedObservation → Subscription
new_subscription m row agreement_id provider seen = record {
  subscription_id = m.subscription_id;
  purchase_intent_id = row.purchase_intent_id;
  external_billing_account_id = row.external_billing_account_id;
  external_subscription_id = str provider;
  external_agreement_id = agreement_id;
  lifecycle_status = lifecycle_of seen;
  financial_access_status = FinancialAccess.unverified;
  commercial_access_status = CommercialAccess.eligible;
  projection_valid_until = m.now;
  latest_observation_id = none;
}

-- The linked subscription, added and flushed where there is none; `broken` says that the operation's
-- binding breaks its constraint.
unfoldable pub linked_or_new :
    Moment
    → PurchaseIntent
    → Option Text
    → ℕ
    → PreparedObservation
    → Bool
    → Db
    → Outcome (Subscription × Db)
linked_or_new m row agreement_id provider seen broken db =
    elim (linked_subscription db row.purchase_intent_id) [
      | some sub ↦ ok (sub, db)
      | none ↦
          let new = new_subscription m row agreement_id provider seen in
          raise_if (broken || breaks_subscription new db.subscriptions) integrity_error
          >> ok (new, record db { subscriptions = new ∷ db.subscriptions })
    ]

abbrev observed : Moment → Subscription → PreparedObservation → Db → Db
observed m sub seen db = record db {
  subscriptions =
      put (λ s. s.subscription_id)
        (record sub {
          lifecycle_status = lifecycle_of seen;
          latest_observation_id = some m.observation_id;
        })
        db.subscriptions;
  observations =
      record {
        observation_id = m.observation_id;
        subscription_id = sub.subscription_id;
        observed_at = m.now;
        evidence_document = seen;
      }
      ∷ db.observations;
}

-- The branch for a subscription.
unfoldable pub link_subscription :
    Moment
    → PurchaseIntent
    → List Operation
    → ℕ
    → Option PreparedObservation
    → Bool
    → Db
    → Outcome Db
link_subscription m row ops provider observation broken db = do
  contract ← or_raise (find? (λ o. kind_eq o.operation_kind agreement) ops) stop_iteration
  check (is_bound contract.operation_state) purchase_pending
  seen ← or_raise observation purchase_pending
  (sub, db') ← linked_or_new m row contract.bound_external_object_id provider seen broken db
  check
      (text_eq sub.external_subscription_id (str provider)
        && opt_text_eq sub.external_agreement_id contract.bound_external_object_id)
      purchase_review_required
  raise_if broken integrity_error
  ok (save_intent (with_state m IntentState.linked row) (observed m sub seen db'))

-- What `_bind_financial` does with the rows.
unfoldable pub bind_rest :
    Moment
    → Purchase
    → FinancialOperation
    → ℕ
    → Option PreparedObservation
    → Db
    → PurchaseIntent
    → Operation
    → Outcome Db
bind_rest m purchase expected provider observation db row op =
    let op' = bound_to m provider op in
    let ops' = put (λ o. o.create_operation_id) op' (operations db purchase.id) in
    let db' = bound_rows m row op op' ops' db in
    admit_binding row op expected provider db
    >> (if kind_eq op.operation_kind subscription
        then link_subscription m (released m ops' row) ops' provider observation
            (breaks_binding op' db.operations) db'
        else (raise_if (breaks_binding op' db.operations) integrity_error >> ok db'))

-- `_bind_financial`
unfoldable pub bind_once :
    Moment → Purchase → FinancialOperation → ℕ → Option PreparedObservation → Db → Outcome Db
bind_once m purchase expected provider observation db =
    with_operation m db purchase expected (bind_rest m purchase expected provider observation db)

-- `bind_financial`: what it raises or returns, and the tables behind it. On a broken constraint the
-- first transaction is rolled back, and a second one, at a moment of its own, records the conflict.
abbrev pub after_conflict : Outcome Db → Db → Outcome (Unit {0}) × Db
after_conflict (ok recorded) db = (err purchase_review_required, recorded)
after_conflict (err e) db = (err e, db)

abbrev pub after_binding : Outcome Db → Outcome Db → Db → Outcome (Unit {0}) × Db
after_binding (ok bound) conflict db = (ok tt, bound)
after_binding (err integrity_error) conflict db = after_conflict conflict db
after_binding (err e) conflict db = (err e, db)

unfoldable pub bind_financial :
    Moment
    → Moment
    → Purchase
    → FinancialOperation
    → ℤ
    → Option PreparedObservation
    → Db
    → Outcome (Unit {0}) × Db
bind_financial m m' purchase expected provider_id observation db =
    elim (provider_number provider_id) [
      | err e ↦ (err e, db)
      | ok provider ↦
          after_binding (bind_once m purchase expected provider observation db)
            (financial_pending m' purchase expected true none db) db
    ]
