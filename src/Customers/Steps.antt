-- ===== src/Customers/Steps.antt =====
-- How one transaction of apps/api/app/domains/billing/customers.py may change one customer's slot, as
-- a relation: its constructors carry what the transaction has checked.
pub mod Sends
pub mod Claims
pub mod Answers
pub mod Ends
pub mod Finishes
pub mod Reads
pub mod Applies
pub mod Reserves
pub mod All
pub mod Keeps
pub mod Sound
use native.Mathlib.Decide.{ℕ_discrete}
use payments_portal.Purchases.Evolution.{op_key}
use payments_portal.Customers.Read.{bound_slot, bound_create}
use payments_portal.Customers.Edits.{Edits}
use payments_portal.Store.Tables.{IsKeyed}
use payments_portal.Base.Int.{ℤ, pos}
use payments_portal.Customers.Run.{CustomerTransaction, claims, receives, releases, finishes, reads}
use payments_portal.Customers.Open.{CustomerOpen, Configuration, receipt_id, User}
use payments_portal.Customers.Reviews.{in_manual_review, conflicting}
use payments_portal.Customers.Send.{with_receipt, sending, leased_work, is_leased, has_sent}
use payments_portal.Customers.Ends.{unsent, failed_work, finished_work, outcome_unknown}
use payments_portal.Store.{Moment, Work, Db, State, is_possible_send, Outcome, is_pending}
use payments_portal.Base.{
  ℕ, ok, Option, some, if◌then◌else◌, Text, ◌≡◌, opt_eq, none, arith, ◌&&◌, none_or, ◌⊎◌, subst,
  is_none, false, text_eq, sym, str, true, ◌<◌, ◌^◌, refl,
}
use payments_portal.Customers.Slot.{Create, Holds}

-- The slots behind the writes.
abbrev pub sent : Moment → Configuration → Create → Create
sent m cfg s = record {
  customer = s.customer;
  operation = sending m s.operation;
  work = some (leased_work m cfg s.operation.create_operation_id s.work);
}

abbrev pub received : ℕ → Create → Create
received provider s = record s { operation = with_receipt provider s.operation }

abbrev pub map_work : (Work → Work) → Option Work → Option Work
map_work f none = none
map_work f (some work) = some (f work)

abbrev pub noted : Moment → ℕ → Option ℤ → Text → Create → Create
noted m http_status lbx_code reason s = record s {
  work = map_work (failed_work m http_status lbx_code reason) s.work;
}

abbrev pub released : Moment → Create → Create
released m s = record {
  customer = s.customer;
  operation = unsent m s.operation;
  work = map_work finished_work s.work;
}

abbrev pub unleased : Option ℕ → Work → Work
unleased fence work =
    if opt_eq work.lease_owner fence
    then record work { lease_owner = none; lease_expires_at = none }
    else work

abbrev pub finished : Moment → Option ℕ → Create → Create
finished m fence s = record {
  customer = s.customer;
  operation =
      if is_possible_send s.operation.operation_state && is_none s.customer.provider_customer_id
      then outcome_unknown m s.operation
      else s.operation;
  work = map_work (unleased fence) s.work;
}

abbrev pub refuted : Moment → Create → Create
refuted m s = record s {
  customer = conflicting s.customer;
  operation = in_manual_review (record s.operation { send_fence = some m.fence });
}

abbrev pub reviewed : Create → Create
reviewed s = record s { operation = in_manual_review s.operation }

abbrev pub still_unknown : Create → Create
still_unknown s = record s { operation = record s.operation { operation_state = State.unknown } }

abbrev pub identified : Moment → Text → Create → Create
identified m provider s = record {
  customer = bound_slot provider s.customer;
  operation = bound_create m provider s.customer s.operation;
  work = map_work finished_work s.work;
}

-- What a claim has found when it sends.
pub record MaySend (m : Moment) (expected : CustomerOpen) (s : Create) : Type 0 where
  pub no_identity : s.customer.provider_customer_id ≡ none
  pub no_receipt : receipt_id s.operation ≡ ok none
  pub current : s.operation.send_fence ≡ expected.fence
  pub no_lease : is_leased m.now s.work ≡ false

-- What a receipt has found.
pub record TakesReceipt (expected : CustomerOpen) (provider : ℕ) (s : Create) : Type 0 where
  pub previous : Option Text
  pub earlier : receipt_id s.operation ≡ ok previous
  pub agrees : none_or (λ t. text_eq t (str provider)) previous ≡ true
  pub current : s.operation.send_fence ≡ expected.fence
  pub was_sent : has_sent s.operation.operation_state ≡ true
  pub in_range : (0 < provider) × (provider < 10 ^ 20)

-- What a release has found.
pub record Releases (expected : CustomerOpen) (s : Create) : Type 0 where
  pub current : s.operation.send_fence ≡ expected.fence
  pub in_flight : s.operation.operation_state ≡ State.possible_send
  pub no_identity : s.customer.provider_customer_id ≡ none
  pub no_receipt : s.operation.recovery_hint_document ≡ none

-- What a read that binds has found.
pub record ReadsIdentity (expected : CustomerOpen) (provider : Text) (outer_key : Option Text)
    (s : Create) : Type 0 where
  pub current : s.operation.send_fence ≡ expected.fence
  pub same_key : outer_key ≡ some s.customer.billing_customer_key
  pub keys :
      (s.customer.billing_customer_key ≡ expected.outer_key)
      × (s.operation.request_correlation_key ≡ expected.outer_key)
  pub free :
      (s.customer.provider_customer_id ≡ none) ⊎ (s.customer.provider_customer_id ≡ some provider)

pub data Step (t : CustomerTransaction) (s s' : Create) : Type 0 where
  rests : s' ≡ s → Step t s s'
  sends :
      (m : Moment) (cfg : Configuration) (session : Outcome User) (expected : CustomerOpen)
      → t ≡ claims m cfg session expected
      → MaySend m expected s
      → s' ≡ sent m cfg s
      → Step t s s'
  takes_receipt :
      (m : Moment) (expected : CustomerOpen) (provider : ℕ)
      → t ≡ receives m expected (pos provider)
      → TakesReceipt expected provider s
      → s' ≡ received provider s
      → Step t s s'
  notes_failure :
      (m : Moment) (http_status : ℕ) (lbx_code : Option ℤ) (reason : Text)
      → s' ≡ noted m http_status lbx_code reason s
      → Step t s s'
  takes_back :
      (m : Moment) (expected : CustomerOpen)
      → t ≡ releases m expected
      → Releases expected s
      → s' ≡ released m s
      → Step t s s'
  ends :
      (m : Moment) (expected : CustomerOpen)
      → t ≡ finishes m expected
      → s.operation.send_fence ≡ expected.fence
      → s' ≡ finished m expected.fence s
      → Step t s s'
  refutes : (m : Moment) → s' ≡ refuted m s → Step t s s'
  goes_to_review : s' ≡ reviewed s → Step t s s'
  stays_unknown :
      is_pending s.operation.operation_state ≡ false → s' ≡ still_unknown s → Step t s s'
  takes_identity :
      (m again : Moment) (expected : CustomerOpen) (provider : Text) (outer_key : Option Text)
      → t ≡ reads m again expected (some provider) outer_key false
      → ReadsIdentity expected provider outer_key s
      → s' ≡ identified m provider s
      → Step t s s'

-- From the tables before to the tables after a transaction: the operations' identities stay primary
-- keys, and every slot takes a step.
pub record Advances (t : CustomerTransaction) (db after : Db) : Type 0 where
  pub keyed : IsKeyed op_key after.operations
  pub step : (k : ℕ) (s : Create) → Holds db k s → (s' : Create) × Holds after k s' × Step t s s'

pub Advances-same :
    (t : CustomerTransaction) (db after : Db)
    → IsKeyed op_key db.operations
    → after ≡ db
    → Advances t db after
Advances-same t db after keyed same = record {
  keyed = rw same keyed;
  step = λ k s held. (s, subst (λ d. Holds d k s) (sym same) held, rests refl);
}

pub Holds-unique : (db : Db) (k : ℕ) (s r : Create) → Holds db k s → Holds db k r → s ≡ r
Holds-unique db k s r h g = ground (arith, h.customer, g.customer, h.operation, g.operation)

pub Advances-Edits :
    (t : CustomerTransaction) (db after : Db) (k : ℕ) (s s' : Create)
    → Holds db k s
    → Edits db after k s'
    → Step t s s'
    → Advances t db after
Advances-Edits t db after k s s' held edits step = record {
  keyed = edits.keyed;
  step = λ l r other. elim (ℕ_discrete l k) [
    | yes here ↦
        let same : s ≡ r = Holds-unique db k s r held (subst (λ i. Holds db i r) here other) in
        (
          s',
          subst (λ i. Holds after i s') (sym here) edits.here,
          subst (λ x. Step t x s') same step,
        )
    | no there ↦ (r, edits.there l r there other, rests refl)
  ];
}
