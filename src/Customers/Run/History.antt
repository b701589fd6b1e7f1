-- ===== src/Customers/Run/History.antt =====
-- What every sequence of the customer's transactions keeps.
use payments_portal.Customers.Steps.Claims.{claim_run}
use payments_portal.Customers.Edits.{Edits}
use payments_portal.Customers.Steps.Sends.{read_slot, read_slot-Holds}
use payments_portal.Customers.Steps.Answers.{
  receipt_run, record_customer_receipt-Advances, operation_only-Edits,
}
use payments_portal.Customers.Send.{record_customer_receipt, claim_customer_send, with_receipt}
use payments_portal.Customers.Steps.Keeps.{
  Keeps, Keeps-trans, step-Keeps, Keeps-refl, receipt_id-with_receipt,
}
use payments_portal.Base.Int.{ℤ, pos}
use payments_portal.Customers.Steps.Sound.{IsSoundSlot, step-IsSoundSlot}
use payments_portal.Purchases.Evolution.{op_key}
use payments_portal.Store.Tables.{IsKeyed}
use payments_portal.Customers.Open.{Configuration, User, CustomerOpen, receipt_id}
use payments_portal.Store.{Outcome, Moment, Db}
use payments_portal.Base.{
  refl, ℕ, ok, List, All, Option, ◌∷◌, Text, ◌≡◌, [], some, none, false, subst, sym, inl, inr, str,
  refl,
}
use payments_portal.Customers.Slot.{Create, Holds}
use payments_portal.Customers.Run.{
  CustomerTransaction, run, Outcome, Moment, Db, Configuration, ℤ, record_customer_receipt,
  claim_customer_send,
}
use payments_portal.Customers.Steps.{Holds-unique, received}
use payments_portal.Customers.Steps.All.{run_keeps}

no_conditions : (ts : List CustomerTransaction) → All (λ t. Unit {0}) ts
no_conditions [] = tt
no_conditions (t ∷ ts) = (tt, no_conditions ts)

absurd_receipt :
    {A : Type 0} {o : Outcome (Option Text)} {t : Text} → o ≡ ok (some t) → o ≡ ok none → A
absurd_receipt h g = cc (h, g)

-- Over any sequence of transactions, where the operations are stored under their identities, the
-- slot of a customer that is sound stays, sound, with its user, account, origin and keys, with the
-- provider identity that it has and with the receipt that it has.
pub run-Keeps :
    (ts : List CustomerTransaction) (db : Db) (k : ℕ) (s : Create)
    → IsKeyed op_key db.operations
    → Holds db k s
    → IsSoundSlot s
    → (s' : Create) × Holds (run ts db) k s' × Keeps s s' × IsSoundSlot s'
run-Keeps ts db k s keyed held sound =
    let (s', held', (kept, sound')) =
      run_keeps (λ r. Keeps s r × IsSoundSlot r) (λ t. Unit {0})
        (λ t r q fit step p. (Keeps-trans s r q p.0 (step-Keeps step), step-IsSoundSlot step p.1))
        ts db k s (no_conditions ts) keyed held (Keeps-refl s, sound) in
    (s', held', kept, sound')

-- The slot of a customer with a receipt, after later transactions.
pub record ReceiptKept (k : ℕ) (provider_id : ℤ) (db : Db) : Type 0 where
  pub provider : ℕ
  pub slot : Create
  pub number : provider_id ≡ pos provider
  pub held : Holds db k slot
  pub receipt : receipt_id slot.operation ≡ ok (some (str provider))

pub receipt_kept :
    (m : Moment) (expected : CustomerOpen) (provider_id : ℤ) (db : Db)
    (ts : List CustomerTransaction) {seen : CustomerOpen} {after : Db}
    → IsKeyed op_key db.operations
    → record_customer_receipt m expected provider_id db ≡ ok (seen, after)
    → ReceiptKept expected.customer_id provider_id (run ts after)
receipt_kept m expected provider_id db ts {seen} {after} keyed first =
    let r = receipt_run m expected provider_id db first in
    let k = expected.customer_id in
    let s = read_slot db r.customer r.operation in
    let a = record_customer_receipt-Advances m expected provider_id db keyed first in
    let edits =
      subst (λ d. Edits db d k (received r.provider s)) (sym r.written)
        (operation_only-Edits db k r.customer r.operation (with_receipt r.provider r.operation)
          keyed r.held (record { customer = refl; kind = refl }) refl) in
    let receipt =
      receipt_id-with_receipt r.provider r.operation r.takes.in_range.0 r.takes.in_range.1 in
    let (s', held', kept) =
      run_keeps (Keeps (received r.provider s)) (λ t. Unit {0})
        (λ t x y fit step p. Keeps-trans (received r.provider s) x y p (step-Keeps step)) ts after k
        (received r.provider s) (no_conditions ts) a.keyed edits.here
        (Keeps-refl (received r.provider s)) in
    record {
      provider = r.provider;
      slot = s';
      number = r.number;
      held = held';
      receipt = kept.keeps_receipt (str r.provider) receipt;
    }

-- Where operations are stored under their identities: after `record_customer_receipt` has returned,
-- whatever transactions follow, a later claim of the customer that returns may not create, and
-- changes nothing.
pub receipt_stops_sends :
    (m m' : Moment) (cfg : Configuration) (session : Outcome User)
    (expected expected' : CustomerOpen) (provider_id : ℤ) (db : Db) (ts : List CustomerTransaction)
    {seen seen' : CustomerOpen} {after after' : Db}
    → IsKeyed op_key db.operations
    → record_customer_receipt m expected provider_id db ≡ ok (seen, after)
    → expected'.customer_id ≡ expected.customer_id
    → claim_customer_send m' cfg session expected' (run ts after) ≡ ok (seen', after')
    → (seen'.may_create ≡ false) × (after' ≡ run ts after)
receipt_stops_sends m m' cfg session expected expected' provider_id db ts {seen} {seen'} {after}
      {after'} keyed first same second =
    let k = expected.customer_id in
    let kept = receipt_kept m expected provider_id db ts keyed first in
    let c = claim_run m' cfg session expected' (run ts after) second in
    elim c.outcome [
      | inl silent ↦ silent
      | inr sends ↦
          let slot = read_slot (run ts after) c.customer c.operation in
          let again =
            read_slot-Holds m' (run ts after) expected'.customer_id c.customer c.operation c.locked
              c.found in
          let one =
            Holds-unique (run ts after) k kept.slot slot kept.held
              (subst (λ i. Holds (run ts after) i slot) same again) in
          absurd_receipt
            (subst (λ (x : Create). receipt_id x.operation ≡ ok (some (str kept.provider))) one
              kept.receipt)
            sends.may_send.no_receipt
    ]
