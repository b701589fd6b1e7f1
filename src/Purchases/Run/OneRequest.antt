-- ===== src/Purchases/Run/OneRequest.antt =====
-- Every send of an operation asks for the same thing.
use payments_portal.Base.{none, some, subst, inl, inr}
use payments_portal.Purchases.Run.History.{run-IsKeyed}
use payments_portal.Purchases.Claim.Advances.{claim_financial-Advances}
use payments_portal.Purchases.Claim.Fence.{claim_financial-sends}
use payments_portal.Store.Tables.{IsKeyed, get}
use payments_portal.Purchases.Run.{Transaction, run}
use payments_portal.Purchases.Contracts.{Purchase, FinancialOperation}
use payments_portal.Purchases.Claim.{hinted_request, claim_financial, claimed}
use payments_portal.Purchases.Run.History.{Preserves, run-Preserves, run-IsKeyed}
use payments_portal.Purchases.Evolution.{IsSound, op_key}
use payments_portal.Base.{
  ◌≡◌, is_some, ℕ, ap, true, arith, List, some, ok, some-injective, sym, ◌∙◌,
}
use payments_portal.Store.{
  Operation, Moment, Outcome, RequestDocument, Db, State, is_not_sent, is_open_send,
}

hinted_request-same :
    (o o' : Operation)
    → o'.recovery_hint_document ≡ o.recovery_hint_document
    → hinted_request o' ≡ hinted_request o
hinted_request-same o o' e = ap (λ d. elim d [ none ↦ none | some hint ↦ hint.request ]) e

sent_before :
    (o : Operation)
    → IsSound o
    → is_open_send o.operation_state ≡ true
    → is_some o.unknown_since ≡ true
    → is_not_sent o.operation_state ≡ true
sent_before o sound now_open since = ground (arith, sound.fresh)

kept_history :
    (o o' : Operation)
    → Preserves o o'
    → is_some o.unknown_since ≡ true
    → (is_some o'.unknown_since ≡ true) × (o'.recovery_hint_document ≡ o.recovery_hint_document)
kept_history o o' kept since = ground (arith, kept.keeps_history)

-- Where operations are stored under their identities and the claimed one is sound: of two claims of
-- the operation that may send, with any transactions between them, the second has the request of
-- the first, whoever makes it.
pub claim_financial-one_request :
    (m m' : Moment) (session session' : Outcome ℕ) (purchase purchase' : Purchase)
    (expected expected' : FinancialOperation) (request request' : RequestDocument) (db : Db)
    (ts : List Transaction) {shown shown' : FinancialOperation} {after after' : Db}
    → IsKeyed op_key db.operations
    → ((o : Operation) → get op_key expected.id db.operations ≡ some o → IsSound o)
    → claim_financial m session purchase expected request db ≡ ok (shown, after)
    → shown.may_send ≡ true
    → expected'.id ≡ expected.id
    → claim_financial m' session' purchase' expected' request' (run ts after) ≡ ok (shown', after')
    → shown'.may_send ≡ true
    → request' ≡ request
claim_financial-one_request m m' session session' purchase purchase' expected expected' request
      request' db ts {shown} {shown'} {after} {after'} keyed sound first sent same second sent' =
    let won = claim_financial-sends m session purchase expected request db keyed first sent in
    let step = claim_financial-Advances m session purchase expected request db keyed first in
    let (o, stored, _, sound') =
      step.kept expected.id won.op won.stored (sound won.op won.stored) in
    let is_claimed : o ≡ claimed m purchase request won.op =
      some-injective o (claimed m purchase request won.op) (sym stored ∙ won.now_stored) in
    let flight : o.operation_state ≡ State.possible_send =
      ap (λ (c : Operation). c.operation_state) is_claimed ∙ won.in_flight in
    let since : is_some o.unknown_since ≡ true = ground (arith, sound'.history, flight) in
    let (o', stored', sound'', kept) =
      run-Preserves ts after expected.id o step.keyed stored sound' in
    let (since', document) = kept_history o o' kept since in
    let again =
      claim_financial-sends m' session' purchase' expected' request' (run ts after)
        (run-IsKeyed ts after step.keyed) second sent' in
    let same_row : again.op ≡ o' =
      some-injective again.op o'
        (sym again.stored ∙ ap (λ k. get op_key k (run ts after).operations) same ∙ stored') in
    let retried : is_not_sent again.op.operation_state ≡ true =
      subst (λ (c : Operation). is_not_sent c.operation_state ≡ true) (sym same_row)
        (sent_before o' sound''
          (subst (λ (c : Operation). is_open_send c.operation_state ≡ true) same_row again.was_open)
          since') in
    let hint : hinted_request again.op ≡ some request' = elim again.asked [
      | inl fresh ↦ cc (retried, fresh)
      | inr e ↦ e
    ] in
    some-injective request' request (
      sym hint
      ∙ ap hinted_request same_row
      ∙ hinted_request-same o o' document
      ∙ ap hinted_request is_claimed
      ∙ won.asks)
