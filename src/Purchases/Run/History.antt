-- ===== src/Purchases/Run/History.antt =====
-- What no sequence of transactions changes of an operation.
use payments_portal.Purchases.Escalate.Advances.{escalate_operation-Advances}
use payments_portal.Purchases.Bind.Advances.{bind_financial-Advances}
use payments_portal.Purchases.Changed.Release.{changed_unsent_terms-Advances}
use payments_portal.Purchases.Recovery.Advances.{
  proven_not_sent-Advances, record_receipt-Advances, financial_pending-Advances,
}
use payments_portal.Purchases.Claim.Advances.{claim_financial-Advances}
use payments_portal.Purchases.Evolution.{Evolves, op_key, Advances, IsSound, Advances-same}
use payments_portal.Store.Tables.{IsKeyed, get}
use payments_portal.Purchases.Run.{
  apply, run, Transaction, committed, may_reopen, committed_claim, claims, proves_not_sent,
  receives, waits, changes_terms, binds, committed_escalation, escalates,
}
use payments_portal.Purchases.Contracts.{FinancialOperation}
use payments_portal.Base.{
  ℕ, ◌≡◌, ◌⊎◌, inr, refl, ◌∙◌, ok, Bool, none, List, false, some, err, ◌∷◌, [], true, arith,
}
use payments_portal.Store.{Outcome, Db, Operation}

committed-Advances :
    (reopens : Bool) (db : Db) (result : Outcome Db)
    → IsKeyed op_key db.operations
    → ((after : Db) → result ≡ ok after → Advances reopens db after)
    → Advances reopens db (committed db result)
committed-Advances reopens db (ok after) keyed h = h after refl
committed-Advances reopens db (err e) keyed h = Advances-same reopens db db keyed refl

committed_claim-Advances :
    (db : Db) (result : Outcome (FinancialOperation × Db))
    → IsKeyed op_key db.operations
    → ((shown : FinancialOperation) (after : Db)
        → result ≡ ok (shown, after)
        → Advances false db after)
    → Advances false db (committed_claim db result)
committed_claim-Advances db (ok (shown, after)) keyed h = h shown after refl
committed_claim-Advances db (err e) keyed h = Advances-same false db db keyed refl

committed_escalation-Advances :
    (db : Db) (result : Outcome (Bool × Db))
    → IsKeyed op_key db.operations
    → ((escalated : Bool) (after : Db) → result ≡ ok (escalated, after) → Advances false db after)
    → Advances false db (committed_escalation db result)
committed_escalation-Advances db (ok (escalated, after)) keyed h = h escalated after refl
committed_escalation-Advances db (err e) keyed h = Advances-same false db db keyed refl

-- One transaction of any kind.
pub apply-Advances :
    (t : Transaction) (db : Db)
    → IsKeyed op_key db.operations
    → Advances (may_reopen t) db (apply t db)
unfolding apply
apply-Advances (claims m session purchase expected request) db keyed =
    committed_claim-Advances db _ keyed
      (λ shown after e. claim_financial-Advances m session purchase expected request db keyed e)
apply-Advances (proves_not_sent m purchase expected) db keyed =
    committed-Advances true db _ keyed
      (λ after e. proven_not_sent-Advances m purchase expected db keyed e)
apply-Advances (receives m purchase expected provider_id) db keyed =
    committed-Advances false db _ keyed
      (λ after e. record_receipt-Advances m purchase expected provider_id db keyed e)
apply-Advances (waits m purchase expected conflict facts) db keyed =
    committed-Advances false db _ keyed
      (λ after e. financial_pending-Advances m purchase expected conflict facts db keyed e)
apply-Advances (changes_terms m purchase) db keyed =
    committed-Advances false db _ keyed
      (λ after e. changed_unsent_terms-Advances m purchase db keyed e)
apply-Advances (binds m m' purchase expected provider_id observation) db keyed =
    bind_financial-Advances m m' purchase expected provider_id observation db keyed
apply-Advances (escalates m instant purchase expected) db keyed =
    committed_escalation-Advances db _ keyed
      (λ escalated after e. escalate_operation-Advances m instant purchase expected db keyed e)

-- What stays: who the operation is, the identity that it is bound to, and the first send's time and
-- document.
pub record Preserves (o o' : Operation) : Type 0 where
  pub same_id : o'.create_operation_id ≡ o.create_operation_id
  pub same_kind : o'.operation_kind ≡ o.operation_kind
  pub same_purchase : o'.purchase_intent_id ≡ o.purchase_intent_id
  pub same_key : o'.request_correlation_key ≡ o.request_correlation_key
  pub keeps_binding :
      (o.bound_external_object_id ≡ none)
      ⊎ (o'.bound_external_object_id ≡ o.bound_external_object_id)
  pub keeps_history :
      (o.unknown_since ≡ none)
      ⊎ ((o'.unknown_since ≡ o.unknown_since)
          × (o'.recovery_hint_document ≡ o.recovery_hint_document))

Preserves-refl : (o : Operation) → Preserves o o
Preserves-refl o = record {
  same_id = refl;
  same_kind = refl;
  same_purchase = refl;
  same_key = refl;
  keeps_binding = inr refl;
  keeps_history = inr (refl, refl);
}

Preserves-step :
    (reopens : Bool) (o o' o'' : Operation)
    → Evolves reopens o o'
    → Preserves o' o''
    → Preserves o o''
Preserves-step reopens o o' o'' e p = record {
  same_id = p.same_id ∙ e.same_id;
  same_kind = p.same_kind ∙ e.same_kind;
  same_purchase = p.same_purchase ∙ e.same_purchase;
  same_key = p.same_key ∙ e.same_key;
  keeps_binding = ground arith;
  keeps_history = ground arith;
}

-- Over any sequence of transactions an operation that is stored and sound stays stored under its
-- identity and sound, keeps its kind, purchase and key, keeps the identity that it is bound to,
-- and keeps the time and the document of its first send.
pub run-Preserves :
    (ts : List Transaction) (db : Db) (id : ℕ) (o : Operation)
    → IsKeyed op_key db.operations
    → get op_key id db.operations ≡ some o
    → IsSound o
    → (o' : Operation) × (get op_key id (run ts db).operations ≡ some o')
      × IsSound o'
      × Preserves o o'
unfolding run
run-Preserves [] db id o keyed stored sound = (o, stored, sound, Preserves-refl o)
run-Preserves (t ∷ ts) db id o keyed stored sound =
    let step = apply-Advances t db keyed in
    let (o', stored', evolves, sound') = step.kept id o stored sound in
    let (o'', stored'', sound'', rest) =
      run-Preserves ts (apply t db) id o' step.keyed stored' sound' in
    (o'', stored'', sound'', Preserves-step (may_reopen t) o o' o'' evolves rest)

pub run-IsKeyed :
    (ts : List Transaction) (db : Db)
    → IsKeyed op_key db.operations
    → IsKeyed op_key (run ts db).operations
unfolding run
run-IsKeyed [] db keyed = keyed
run-IsKeyed (t ∷ ts) db keyed = run-IsKeyed ts (apply t db) (apply-Advances t db keyed).keyed
