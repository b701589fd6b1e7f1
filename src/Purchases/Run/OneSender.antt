-- ===== src/Purchases/Run/OneSender.antt =====
-- After a claim that may send, only a proof that nothing was sent lets another claim send.
use payments_portal.Purchases.Claim.Advances.{claim_financial-Advances}
use payments_portal.Purchases.Claim.Fence.{claim_financial-sends, claim_run, claim_rest-sends}
use payments_portal.Purchases.Run.History.{apply-Advances}
use payments_portal.Purchases.Claim.{claim_financial, claimed}
use payments_portal.Purchases.Evolution.{op_key, IsSound}
use payments_portal.Purchases.Contracts.{Purchase, FinancialOperation}
use payments_portal.Purchases.Run.{
  Transaction, run, may_reopen, RequestDocument, apply, claim_financial,
}
use payments_portal.Store.Tables.{get, IsKeyed}
use payments_portal.Base.{
  ℕ, ◌≡◌, inl, inr, sym, ◌∙◌, ok, List, some, false, All, ◌∷◌, true, arith, [], ap, some-injective,
}
use payments_portal.Store.{Moment, Outcome, Db, Operation, RequestDocument, is_open_send}

-- The operation under `id` is sound and not open for a send.
abbrev IsShut : Db → ℕ → Type 0
IsShut db id =
    (o : Operation) × (get op_key id db.operations ≡ some o)
    × IsSound o
    × (is_open_send o.operation_state ≡ false)

apply-IsShut :
    (t : Transaction) (db : Db) (id : ℕ)
    → may_reopen t ≡ false
    → IsKeyed op_key db.operations
    → IsShut db id
    → IsShut (apply t db) id
apply-IsShut t db id closed keyed (o, stored, sound, shut) =
    let (o', stored', evolves, sound') = (apply-Advances t db keyed).kept id o stored sound in
    (o', stored', sound', ground (arith, evolves.stays_shut))

run-IsShut :
    (ts : List Transaction) (db : Db) (id : ℕ)
    → All (λ t. may_reopen t ≡ false) ts
    → IsKeyed op_key db.operations
    → IsShut db id
    → IsKeyed op_key (run ts db).operations × IsShut (run ts db) id
unfolding run
run-IsShut [] db id closed keyed shut = (keyed, shut)
run-IsShut (t ∷ ts) db id closed keyed shut =
    run-IsShut ts (apply t db) id closed.1 (apply-Advances t db keyed).keyed
      (apply-IsShut t db id closed.0 keyed shut)

-- Where operations are stored under their identities and the claimed one is sound: a claim that
-- may send shuts the operation. Whatever transactions follow, unless one of them proves that
-- nothing was sent, no later claim of that operation may send, with whatever session, fence and
-- request, and it changes nothing.
pub claim_financial-one_sender :
    (m m' : Moment) (session session' : Outcome ℕ) (purchase purchase' : Purchase)
    (expected expected' : FinancialOperation) (request request' : RequestDocument) (db : Db)
    (ts : List Transaction) {shown shown' : FinancialOperation} {after after' : Db}
    → IsKeyed op_key db.operations
    → ((o : Operation) → get op_key expected.id db.operations ≡ some o → IsSound o)
    → claim_financial m session purchase expected request db ≡ ok (shown, after)
    → shown.may_send ≡ true
    → All (λ t. may_reopen t ≡ false) ts
    → expected'.id ≡ expected.id
    → claim_financial m' session' purchase' expected' request' (run ts after) ≡ ok (shown', after')
    → (shown'.may_send ≡ false) × (after' ≡ run ts after)
claim_financial-one_sender m m' session session' purchase purchase' expected expected' request
      request' db ts {shown} {shown'} {after} {after'} keyed sound first sent closed same second =
    let won = claim_financial-sends m session purchase expected request db keyed first sent in
    let step = claim_financial-Advances m session purchase expected request db keyed first in
    let (o, stored, _, sound') =
      step.kept expected.id won.op won.stored (sound won.op won.stored) in
    let flight : is_open_send o.operation_state ≡ false =
      ap (λ (c : Operation). is_open_send c.operation_state)
        (some-injective o (claimed m purchase request won.op) (sym stored ∙ won.now_stored))
      ∙ ap is_open_send won.in_flight in
    let (keyed', (o', stored', _, shut)) =
      run-IsShut ts after expected.id closed step.keyed (o, stored, sound', flight) in
    let again = claim_run m' session' purchase' expected' request' (run ts after) second in
    elim again.outcome [
      | inl silent ↦ silent
      | inr sends ↦
          let later =
            claim_rest-sends m' session' purchase' expected' request' (run ts after) again.row
              again.op keyed' again.by_owner again.is_next sends in
          let same_row : later.op ≡ o' =
            some-injective later.op o' (
              sym later.stored ∙ ap (λ k. get op_key k (run ts after).operations) same ∙ stored') in
          cc (later.was_open, ap (λ (c : Operation). is_open_send c.operation_state) same_row, shut)
    ]
