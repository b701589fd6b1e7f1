-- ===== src/Customers/Run/Lease.antt =====
-- One send of a customer's create at a time: the lease of a claim.
use payments_portal.Customers.Steps.Sends.{read_slot, read_slot-Holds, send_rows-Edits}
use payments_portal.Customers.Steps.Claims.{claim_run, claim_customer_send-Advances}
use payments_portal.Purchases.Evolution.{op_key}
use payments_portal.Store.Tables.{IsKeyed}
use payments_portal.Base.Int.{ℤ}
use payments_portal.Customers.Open.{CustomerOpen, Configuration, User}
use payments_portal.Customers.Send.{leased_work, is_leased, claim_customer_send}
use payments_portal.Customers.Ends.{failed_work}
use payments_portal.Store.{Moment, is_possible_send, Work, Outcome, Db}
use payments_portal.Base.{
  ℕ, ok, refl, Bool, is_some, ◌≡◌, true, Option, ltb, false, not, ◌+◌, some, ◌⊎◌, Text, opt_eq,
  subst, ap, sym, Option-cases, ◌∙◌, inl, List, arith, opt_eq_refl, inr, All, ◌<◌, lt→ltb,
}
use payments_portal.Customers.Slot.{Create, Holds}
use payments_portal.Customers.Run.{
  CustomerTransaction, run, Moment, claims, CustomerOpen, Configuration, ℤ, Outcome, releases,
  finishes, Db, claim_customer_send,
}
use payments_portal.Customers.Steps.{
  Step, Holds-unique, rests, MaySend, sent, noted, Releases, finished, released, unleased, sends,
  map_work, takes_receipt, received, notes_failure, takes_back, ends, refutes, refuted,
  goes_to_review, reviewed, stays_unknown, still_unknown, takes_identity,
}
use payments_portal.Customers.Steps.All.{run_keeps}

-- The transaction is made while the lease runs, and does not end the send with this fence.
abbrev pub keeps_lease : ℕ → ℕ → CustomerTransaction → Bool
keeps_lease fence until (claims m cfg session expected) = ltb m.now until
keeps_lease fence until (releases m expected) = not (opt_eq expected.fence (some fence))
keeps_lease fence until (finishes m expected) = not (opt_eq expected.fence (some fence))
keeps_lease fence until _ = true

-- The slot has an identity, or the send's lease stands on its recovery item, and no other send is
-- in flight.
pub data IsLeased (fence until : ℕ) (s : Create) : Type 0 where
  identity : is_some s.customer.provider_customer_id ≡ true → IsLeased fence until s
  leased :
      (w : Work)
      → s.work ≡ some w
      → w.lease_owner ≡ some fence
      → w.lease_expires_at ≡ some until
      → (is_possible_send s.operation.operation_state ≡ false)
        ⊎ (s.operation.send_fence ≡ some fence)
      → IsLeased fence until s

-- A step that keeps the identity, the recovery item and the fence of a send in flight.
same-IsLeased :
    (fence until : ℕ) (s s' : Create)
    → s'.customer.provider_customer_id ≡ s.customer.provider_customer_id
    → s'.work ≡ s.work
    → (is_possible_send s'.operation.operation_state ≡ false)
      ⊎ ((s'.operation.operation_state ≡ s.operation.operation_state)
          × (s'.operation.send_fence ≡ s.operation.send_fence))
    → IsLeased fence until s
    → IsLeased fence until s'
same-IsLeased fence until s s' provider works flight (identity known) =
    identity (ap is_some provider ∙ known)
same-IsLeased fence until s s' provider works flight (leased w stored owner expires own) =
    leased w (works ∙ stored) owner expires (ground (arith, flight, own))

noted-IsLeased :
    (fence until : ℕ) (m : Moment) (status : ℕ) (code : Option ℤ) (reason : Text) (s : Create)
    → IsLeased fence until s
    → IsLeased fence until (noted m status code reason s)
noted-IsLeased fence until m status code reason s (identity known) = identity known
noted-IsLeased fence until m status code reason s (leased w stored owner expires own) =
    leased (failed_work m status code reason w)
      (ap (map_work (failed_work m status code reason)) stored) owner expires own

-- A claim that sends has met no lease that runs.
refused_send :
    {A : Type 0} (fence until : ℕ) (m : Moment) (expected : CustomerOpen) (s : Create)
    → ltb m.now until ≡ true
    → MaySend m expected s
    → IsLeased fence until s
    → A
refused_send fence until m expected s early may (identity known) =
    cc (ap is_some may.no_identity, known)
refused_send fence until m expected s early may (leased w stored owner expires own) =
    let runs : is_leased m.now s.work ≡ true = ground (arith, stored, expires, early) in
    cc (runs, may.no_lease)

taken_back-IsLeased :
    (fence until : ℕ) (m : Moment) (expected : CustomerOpen) (s : Create)
    → not (opt_eq expected.fence (some fence)) ≡ true
    → Releases expected s
    → IsLeased fence until s
    → IsLeased fence until (released m s)
taken_back-IsLeased fence until m expected s other r (identity known) =
    cc (ap is_some r.no_identity, known)
taken_back-IsLeased fence until m expected s other r (leased w stored owner expires own) =
    ground (arith, other, r.current, r.in_flight, own, opt_eq_refl (some fence))

finished-IsLeased :
    (fence until : ℕ) (m : Moment) (f : Option ℕ) (s : Create)
    → not (opt_eq f (some fence)) ≡ true
    → IsLeased fence until s
    → IsLeased fence until (finished m f s)
finished-IsLeased fence until m f s other (identity known) = identity known
finished-IsLeased fence until m f s other (leased w stored owner expires own) =
    let keeps : unleased f w ≡ w = ground (arith, other, owner) in
    leased w (ap (map_work (unleased f)) stored ∙ ap (λ x. some x) keeps) owner expires
      (ground (arith, own))

pub step-IsLeased :
    (fence until : ℕ) (t : CustomerTransaction) (s s' : Create)
    → keeps_lease fence until t ≡ true
    → Step t s s'
    → IsLeased fence until s
    → IsLeased fence until s'
step-IsLeased fence until t s s' fit (rests e) h = subst (IsLeased fence until) (sym e) h
step-IsLeased fence until t s s' fit (sends m cfg session expected is_claim may e) h =
    subst (IsLeased fence until) (sym e) (
      refused_send fence until m expected s
        (subst (λ x. keeps_lease fence until x ≡ true) is_claim fit) may h)
step-IsLeased fence until t s s' fit (takes_receipt m expected n _ takes e) h =
    subst (IsLeased fence until) (sym e)
      (same-IsLeased fence until s (received n s) refl refl (inr (refl, refl)) h)
step-IsLeased fence until t s s' fit (notes_failure m status code reason e) h =
    subst (IsLeased fence until) (sym e) (noted-IsLeased fence until m status code reason s h)
step-IsLeased fence until t s s' fit (takes_back m expected is_release r e) h =
    subst (IsLeased fence until) (sym e) (
      taken_back-IsLeased fence until m expected s
        (subst (λ x. keeps_lease fence until x ≡ true) is_release fit) r h)
step-IsLeased fence until t s s' fit (ends m expected is_finish _ e) h =
    subst (IsLeased fence until) (sym e) (
      finished-IsLeased fence until m expected.fence s
        (subst (λ x. keeps_lease fence until x ≡ true) is_finish fit) h)
step-IsLeased fence until t s s' fit (refutes m e) h =
    subst (IsLeased fence until) (sym e)
      (same-IsLeased fence until s (refuted m s) refl refl (inl refl) h)
step-IsLeased fence until t s s' fit (goes_to_review e) h =
    subst (IsLeased fence until) (sym e)
      (same-IsLeased fence until s (reviewed s) refl refl (inl refl) h)
step-IsLeased fence until t s s' fit (stays_unknown _ e) h =
    subst (IsLeased fence until) (sym e)
      (same-IsLeased fence until s (still_unknown s) refl refl (inl refl) h)
step-IsLeased fence until t s s' fit (takes_identity m again expected p key _ r e) h =
    subst (IsLeased fence until) (sym e) (identity refl)

sent-IsLeased :
    (m : Moment) (cfg : Configuration) (s : Create)
    → IsLeased m.fence (m.now + cfg.send_lease) (sent m cfg s)
unfolding leased_work
sent-IsLeased m cfg s =
    let w = leased_work m cfg s.operation.create_operation_id s.work in
    elim (Option-cases s.work) [
      | inl nothing ↦ leased w refl (ground (arith, nothing)) (ground (arith, nothing)) (inr refl)
      | inr (old, there) ↦ leased w refl (ground (arith, there)) (ground (arith, there)) (inr refl)
    ]

-- Where operations are stored under their identities: a claim that may create leases the customer's
-- send. While the lease runs, and whatever
-- transactions are made meanwhile that do not release or finish the send with its fence, no other
-- claim of the customer may create, with whatever session and snapshot, and it changes nothing.
pub claim_customer_send-one_sender :
    (m m' : Moment) (cfg cfg' : Configuration) (session session' : Outcome User)
    (expected expected' : CustomerOpen) (db : Db) (ts : List CustomerTransaction)
    {seen seen' : CustomerOpen} {after after' : Db}
    → IsKeyed op_key db.operations
    → claim_customer_send m cfg session expected db ≡ ok (seen, after)
    → seen.may_create ≡ true
    → All (λ t. keeps_lease m.fence (m.now + cfg.send_lease) t ≡ true) ts
    → m'.now < m.now + cfg.send_lease
    → expected'.customer_id ≡ expected.customer_id
    → claim_customer_send m' cfg' session' expected' (run ts after) ≡ ok (seen', after')
    → (seen'.may_create ≡ false) × (after' ≡ run ts after)
claim_customer_send-one_sender m m' cfg cfg' session session' expected expected' db ts {seen}
      {seen'} {after} {after'} keyed first sent_first fits early same second =
    let r = claim_run m cfg session expected db first in
    let k = expected.customer_id in
    let fence = m.fence in
    let until = m.now + cfg.send_lease in
    let s = read_slot db r.customer r.operation in
    let held = read_slot-Holds m db k r.customer r.operation r.locked r.found in
    let a = claim_customer_send-Advances m cfg session expected db keyed first in
    let sent_slot : Holds after k (sent m cfg s) = elim r.outcome [
      | inl silent ↦ cc (silent.0, sent_first)
      | inr x ↦
          subst (λ d. Holds d k (sent m cfg s)) (sym x.written)
            (send_rows-Edits m cfg db k r.customer r.operation keyed held).here
    ] in
    let (s', held', still) =
      run_keeps (IsLeased fence until) (λ t. keeps_lease fence until t ≡ true)
        (λ t x y fit step p. step-IsLeased fence until t x y fit step p) ts after k (sent m cfg s)
        fits a.keyed sent_slot (sent-IsLeased m cfg s) in
    let c = claim_run m' cfg' session' expected' (run ts after) second in
    elim c.outcome [
      | inl silent ↦ silent
      | inr again ↦
          let slot = read_slot (run ts after) c.customer c.operation in
          let there =
            read_slot-Holds m' (run ts after) expected'.customer_id c.customer c.operation c.locked
              c.found in
          let one =
            Holds-unique (run ts after) k s' slot held'
              (subst (λ i. Holds (run ts after) i slot) same there) in
          refused_send fence until m' expected' slot (lt→ltb m'.now until early) again.may_send
            (subst (IsLeased fence until) one still)
    ]
