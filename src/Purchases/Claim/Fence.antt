-- ===== src/Purchases/Claim/Fence.antt =====
-- What a claim guarantees: at most one sender at a time, and the history of the first send.
use payments_portal.Purchases.Claim.Request.{admit_claim-request, claimed-request}
use payments_portal.Store.Tables.{get, IsKeyed, get-put_self, put-IsKeyed}
use payments_portal.Purchases.Evolution.{op_key, operations-get}
use payments_portal.Base.{
  ℕ, ◌≡◌, ◌⊎◌, inl, inr, Bool, true, false, ok, ◌>>=◌, >>=-eq-ok, Bool-cases, arith, check, ◌==◌,
  List, some, none, ==_iff, opt_eq→eq, find?-holds, or_raise-eq-ok, ap, ◌∙◌, subst, sym,
}
use payments_portal.Store.{
  Moment, Outcome, Db, Operation, PurchaseIntent, RequestDocument, operations, purchase_not_found,
  is_not_sent, is_open_send,
}
use payments_portal.Purchases.Contracts.{FinancialOperation, Purchase}
use payments_portal.Purchases.Snapshot.{operation_snapshot}
use payments_portal.Purchases.Snapshot.Shown.{Shows, operation_snapshot-Shows}
use payments_portal.Purchases.Claim.{
  claim_rest, claim_financial, keeps_claim, admit_claim, claim_rows, claimed, State,
  schedule_recovery, put, kind_eq, subscription, agreement_bound, stop_iteration, hinted_request,
}
use payments_portal.Purchases.Locking.{with_operation-eq-ok, locked, next_operation}

shown_pair :
    (db : Db) (op : Operation) (may_send : Bool) {shown : FinancialOperation} {after : Db}
    → ◌>>=◌ {B = FinancialOperation × Db} (operation_snapshot db op may_send) (λ x. ok (x, db))
      ≡ ok (shown, after)
    → Shows op may_send shown × (after ≡ db)
shown_pair db op may_send {shown} {after} h =
    let (s, seen, e) = >>=-eq-ok (operation_snapshot db op may_send) (λ x. ok (x, db)) h in
    ground (arith, operation_snapshot-Shows db op may_send seen)

-- The two ways in which a claim returns: it leaves the tables alone, or it writes and may send.
abbrev pub IsSilent : Db → FinancialOperation → Db → Type 0
IsSilent db shown after = (shown.may_send ≡ false) × (after ≡ db)

pub record IsSent (m : Moment) (purchase : Purchase) (expected : FinancialOperation)
    (request : RequestDocument) (db : Db) (row : PurchaseIntent) (op : Operation)
    (shown : FinancialOperation) (after : Db) : Type 0 where
  pub open_claim : keeps_claim row op expected ≡ false
  pub admitted : admit_claim m request row (operations db purchase.id) op db ≡ ok tt
  pub shows : Shows (claimed m purchase request op) true shown
  pub written : after ≡ claim_rows m purchase request row op db

claim_rest_cases :
    (m : Moment) (purchase : Purchase) (expected : FinancialOperation) (request : RequestDocument)
    (db : Db) (row : PurchaseIntent) (op : Operation) {shown : FinancialOperation} {after : Db}
    → claim_rest m purchase expected request db row op ≡ ok (shown, after)
    → IsSilent db shown after ⊎ IsSent m purchase expected request db row op shown after
unfolding claim_rest
claim_rest_cases m purchase expected request db row op {shown} {after} h =
    let next = claim_rows m purchase request row op db in
    elim (Bool-cases (keeps_claim row op expected)) [
      | inl kept ↦
          let (shows, same) = shown_pair db op false (rw (kept, claim_rest) at h) in
          inl (shows.permission, same)
      | inr sent ↦
          let (_, admitted, h1) =
            >>=-eq-ok (admit_claim m request row (operations db purchase.id) op db) _
              (rw (sent, claim_rest) at h) in
          let (shows, same) = shown_pair next (claimed m purchase request op) true h1 in
          inr (record { open_claim = sent; admitted = admitted; shows = shows; written = same })
    ]

-- What a claim has read when it returns.
pub record ClaimRun (m : Moment) (session : Outcome ℕ) (purchase : Purchase)
    (expected : FinancialOperation) (request : RequestDocument) (db : Db)
    (shown : FinancialOperation) (after : Db) : Type 0 where
  pub row : PurchaseIntent
  pub op : Operation
  pub by_owner : session ≡ ok purchase.user_id
  pub is_locked : locked m db purchase ≡ ok row
  pub is_next : next_operation expected.id (operations db purchase.id) ≡ ok op
  pub outcome : IsSilent db shown after ⊎ IsSent m purchase expected request db row op shown after

pub claim_run :
    (m : Moment) (session : Outcome ℕ) (purchase : Purchase) (expected : FinancialOperation)
    (request : RequestDocument) (db : Db) {shown : FinancialOperation} {after : Db}
    → claim_financial m session purchase expected request db ≡ ok (shown, after)
    → ClaimRun m session purchase expected request db shown after
unfolding claim_financial
claim_run m session purchase expected request db h =
    let (user, is_user, h1) = >>=-eq-ok session _ h in
    let (_, owner, h2) = >>=-eq-ok (check (user == purchase.user_id) purchase_not_found) _ h1 in
    let (row, op, is_row, is_op, h3) =
      with_operation-eq-ok m db purchase expected (claim_rest m purchase expected request db) h2 in
    record {
      row = row;
      op = op;
      by_owner = ground (arith, is_user, owner);
      is_locked = is_row;
      is_next = is_op;
      outcome = claim_rest_cases m purchase expected request db row op h3;
    }

pub claimed-columns :
    (m : Moment) (purchase : Purchase) (request : RequestDocument) (op : Operation)
    → let o = claimed m purchase request op in
      (o.create_operation_id ≡ op.create_operation_id)
      × (o.operation_state ≡ State.possible_send)
      × (o.send_fence ≡ some m.fence)
unfolding claimed
claimed-columns m purchase request op = ground arith

pub claim_rows-operations :
    (m : Moment) (purchase : Purchase) (request : RequestDocument) (row : PurchaseIntent)
    (op : Operation) (db : Db)
    → (claim_rows m purchase request row op db).operations
      ≡ put op_key (claimed m purchase request op) db.operations
unfolding claim_rows schedule_recovery
claim_rows-operations m purchase request row op db = ground arith

-- What a claim that may send proves of the tables before and after it.
pub record ClaimSends (m : Moment) (session : Outcome ℕ) (purchase : Purchase)
    (expected : FinancialOperation) (request : RequestDocument) (db : Db)
    (shown : FinancialOperation) (after : Db) : Type 0 where
  pub op : Operation
  pub by_owner : session ≡ ok purchase.user_id
  pub stored : get op_key expected.id db.operations ≡ some op
  pub was_open : is_open_send op.operation_state ≡ true
  pub was_current : op.send_fence ≡ expected.fence
  pub was_unbound : op.bound_external_object_id ≡ none
  pub under_agreement :
      (kind_eq op.operation_kind subscription ≡ false)
      ⊎ (agreement_bound (operations db purchase.id) ≡ true)
  pub asked : (is_not_sent op.operation_state ≡ false) ⊎ (hinted_request op ≡ some request)
  pub asks : hinted_request (claimed m purchase request op) ≡ some request
  pub now_stored : get op_key expected.id after.operations ≡ some (claimed m purchase request op)
  pub in_flight : (claimed m purchase request op).operation_state ≡ State.possible_send
  pub new_fence : (claimed m purchase request op).send_fence ≡ some m.fence
  pub shown_fence : shown.fence ≡ some m.fence
  pub keyed : IsKeyed op_key after.operations

open_claim_columns :
    (row : PurchaseIntent) (op : Operation) (expected : FinancialOperation)
    → keeps_claim row op expected ≡ false
    → (is_open_send op.operation_state ≡ true)
      × (op.send_fence ≡ expected.fence)
      × (op.bound_external_object_id ≡ none)
unfolding keeps_claim
open_claim_columns row op expected h = ground (arith, opt_eq→eq op.send_fence expected.fence)

admit_claim-agreement :
    (m : Moment) (request : RequestDocument) (row : PurchaseIntent) (ops : List Operation)
    (op : Operation) (db : Db)
    → admit_claim m request row ops op db ≡ ok tt
    → (kind_eq op.operation_kind subscription ≡ false) ⊎ (agreement_bound ops ≡ true)
unfolding admit_claim
admit_claim-agreement m request row ops op db h = ground arith

pub next_operation-id :
    (id : ℕ) (ops : List Operation) {op : Operation}
    → next_operation id ops ≡ ok op
    → op.create_operation_id ≡ id
unfolding next_operation
next_operation-id id ops {op} h =
    (==_iff op.create_operation_id id).0
      (find?-holds (λ o. o.create_operation_id == id) ops (or_raise-eq-ok _ stop_iteration h))

pub claim_rest-sends :
    (m : Moment) (session : Outcome ℕ) (purchase : Purchase) (expected : FinancialOperation)
    (request : RequestDocument) (db : Db) {shown : FinancialOperation} {after : Db}
    (row : PurchaseIntent) (op : Operation)
    → IsKeyed op_key db.operations
    → session ≡ ok purchase.user_id
    → next_operation expected.id (operations db purchase.id) ≡ ok op
    → IsSent m purchase expected request db row op shown after
    → ClaimSends m session purchase expected request db shown after
claim_rest-sends m session purchase expected request db {shown} {after} row op keyed owner is_op s =
    let new = claimed m purchase request op in
    let (same, flight, fence) = claimed-columns m purchase request op in
    let (was_open, current, free) = open_claim_columns row op expected s.open_claim in
    let stored = operations-get db purchase.id expected.id keyed is_op in
    let asked = admit_claim-request m request row (operations db purchase.id) op db s.admitted in
    let same_id = next_operation-id expected.id (operations db purchase.id) is_op in
    let rows : after.operations ≡ put op_key new db.operations =
      ap (λ (d : Db). d.operations) s.written
      ∙ claim_rows-operations m purchase request row op db in
    let stored_new : get op_key new.create_operation_id db.operations ≡ some op =
      subst (λ k. get op_key k db.operations ≡ some op) (sym same) stored in
    record {
      op = op;
      by_owner = owner;
      stored = subst (λ k. get op_key k db.operations ≡ some op) same_id stored;
      was_open = was_open;
      was_current = current;
      was_unbound = free;
      under_agreement =
          admit_claim-agreement m request row (operations db purchase.id) op db s.admitted;
      asked = asked;
      asks = claimed-request m purchase request op asked;
      now_stored = rw rows (
          subst (λ k. get op_key k (put op_key new db.operations) ≡ some new) (same ∙ same_id)
            (get-put_self op_key new db.operations {old = op} stored_new));
      in_flight = flight;
      new_fence = fence;
      shown_fence = s.shows.same_fence ∙ fence;
      keyed = rw rows (put-IsKeyed op_key new db.operations {old = op} stored_new keyed);
    }

-- A claim that may send, on operations stored under their identities, was made by the purchase's
-- owner on an operation that was open, unbound and under the caller's fence, and, for a
-- subscription, under a bound agreement; it leaves the operation in flight under a fence of its
-- own, which the caller is shown.
pub claim_financial-sends :
    (m : Moment) (session : Outcome ℕ) (purchase : Purchase) (expected : FinancialOperation)
    (request : RequestDocument) (db : Db) {shown : FinancialOperation} {after : Db}
    → IsKeyed op_key db.operations
    → claim_financial m session purchase expected request db ≡ ok (shown, after)
    → shown.may_send ≡ true
    → ClaimSends m session purchase expected request db shown after
claim_financial-sends m session purchase expected request db keyed h sends =
    let run = claim_run m session purchase expected request db h in
    elim run.outcome [
      | inl silent ↦ cc silent.0
      | inr sent ↦
          claim_rest-sends m session purchase expected request db run.row run.op keyed run.by_owner
            run.is_next sent
    ]
