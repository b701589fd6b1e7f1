-- ===== src/Customers/Steps/Answers.antt =====
-- `record_customer_receipt`, `record_customer_create_failure`, `release_unsent_claim` and
-- `finish_customer_attempt` take the steps of the relation.
use payments_portal.Customers.Steps.Claims.{same_pair}
use payments_portal.Customers.Run.{receives, releases}
use payments_portal.Customers.Edits.{
  SameOwner, Edits, WritesWork, Edits-of, left, WritesWork-same, wrote, WritesWork-put,
}
use payments_portal.Customers.Steps.Sends.{read_slot, read_slot-Holds}
use payments_portal.Purchases.Evolution.{op_key}
use payments_portal.Store.Tables.{IsKeyed, put}
use payments_portal.Base.Int.{ℤ, pos, negsuc}
use payments_portal.Customers.Open.{CustomerOpen, receipt_id, customer_snapshot}
use payments_portal.Store.{
  Db, Moment, Customer, Work, Operation, recovery_work, lock_customer, save_operation,
  customer_operation, billing_customer_pending, is_possible_send, billing_identity_conflict,
}
use payments_portal.Customers.Send.{
  fence_fits, customer_number, record_customer_receipt, with_receipt, has_sent,
}
use payments_portal.Customers.Ends.{release_unsent_claim, save_finished, unsent, finished_work}
use payments_portal.Base.{
  ℕ, ok, Option, ◌≡◌, true, >>=-eq-ok, opt_eq→eq, none, ◌<◌, arith, or_raise, some, ◌^◌, check,
  subst, sym, ap, ◌&&◌, refl, is_none, none_or, text_eq, or_raise-eq-ok, str, false,
}
use payments_portal.Customers.Slot.{Holds}
use payments_portal.Customers.Steps.{
  Db, Moment, CustomerOpen, ℤ, Work, IsKeyed, op_key, TakesReceipt, Advances, Releases, receives,
  releases, Advances-Edits, map_work, received, released, takes_receipt, takes_back,
  is_possible_send,
}

-- A fence that fits is the operation's.
fence_fits-current :
    (expected : CustomerOpen) (c : Customer) (op : Operation)
    → fence_fits expected c op ≡ true
    → op.send_fence ≡ expected.fence
unfolding fence_fits
fence_fits-current expected c op h = opt_eq→eq op.send_fence expected.fence (ground (arith, h))

customer_number-range :
    (provider_id : ℤ) {provider : ℕ}
    → customer_number provider_id ≡ ok provider
    → (provider_id ≡ pos provider) × (0 < provider) × (provider < 10 ^ 20)
unfolding customer_number
customer_number-range (pos n) {provider} h = ground arith
customer_number-range (negsuc n) {provider} h = cc h

pub operation_only-Edits :
    (db : Db) (k : ℕ) (c : Customer) (op new : Operation)
    → IsKeyed op_key db.operations
    → Holds db k (read_slot db c op)
    → SameOwner op new
    → new.create_operation_id ≡ op.create_operation_id
    → Edits db (save_operation new db) k (record (read_slot db c op) { operation = new })
operation_only-Edits db k c op new keyed held own same =
    Edits-of db (save_operation new db) k (read_slot db c op)
      (record (read_slot db c op) { operation = new }) keyed held (left refl refl) (wrote refl same)
      own
      (WritesWork-same db (save_operation new db) op.create_operation_id
        (recovery_work db op.create_operation_id) refl refl)

pub record ReceiptRun (m : Moment) (expected : CustomerOpen) (provider_id : ℤ) (db : Db)
    (seen : CustomerOpen) (after : Db) : Type 0 where
  pub provider : ℕ
  pub customer : Customer
  pub operation : Operation
  pub number : provider_id ≡ pos provider
  pub held : Holds db expected.customer_id (read_slot db customer operation)
  pub takes : TakesReceipt expected provider (read_slot db customer operation)
  pub written : after ≡ save_operation (with_receipt provider operation) db

pub receipt_run :
    (m : Moment) (expected : CustomerOpen) (provider_id : ℤ) (db : Db) {seen : CustomerOpen}
    {after : Db}
    → record_customer_receipt m expected provider_id db ≡ ok (seen, after)
    → ReceiptRun m expected provider_id db seen after
unfolding record_customer_receipt
receipt_run m expected provider_id db {seen} {after} h =
    let (provider, is_number, h1) = >>=-eq-ok (customer_number provider_id) _ h in
    let (c, locked, h2) = >>=-eq-ok (lock_customer m db expected.customer_id) _ h1 in
    let (op, found, h3) =
      >>=-eq-ok (or_raise (customer_operation db expected.customer_id) billing_customer_pending) _
        h2 in
    let (_, fits, h4) =
      >>=-eq-ok
        (check (expected.may_create && (fence_fits expected c op && has_sent op.operation_state))
          billing_customer_pending)
        _ h3 in
    let (previous, earlier, h5) = >>=-eq-ok (receipt_id op) _ h4 in
    let (_, agrees, h6) =
      >>=-eq-ok (check (none_or (λ t. text_eq t (str provider)) previous) billing_identity_conflict)
        _ h5 in
    let (x, _, h7) = >>=-eq-ok (customer_snapshot c (with_receipt provider op) none false) _ h6 in
    let (_, written) = same_pair x seen (save_operation (with_receipt provider op) db) after h7 in
    let (number, positive, small) = customer_number-range provider_id is_number in
    record {
      provider = provider;
      customer = c;
      operation = op;
      number = number;
      held = read_slot-Holds m db expected.customer_id c op locked (
          or_raise-eq-ok (customer_operation db expected.customer_id) billing_customer_pending
            found);
      takes = record {
        previous = previous;
        earlier = earlier;
        agrees = ground (arith, agrees);
        current = fence_fits-current expected c op (ground (arith, fits));
        was_sent = ground (arith, fits);
        in_range = (positive, small);
      };
      written = sym written;
    }

pub record_customer_receipt-Advances :
    (m : Moment) (expected : CustomerOpen) (provider_id : ℤ) (db : Db) {seen : CustomerOpen}
    {after : Db}
    → IsKeyed op_key db.operations
    → record_customer_receipt m expected provider_id db ≡ ok (seen, after)
    → Advances (receives m expected provider_id) db after
record_customer_receipt-Advances m expected provider_id db {seen} {after} keyed h =
    let r = receipt_run m expected provider_id db h in
    let s = read_slot db r.customer r.operation in
    Advances-Edits (receives m expected provider_id) db after expected.customer_id s
      (received r.provider s) r.held
      (subst (λ d. Edits db d expected.customer_id (received r.provider s)) (sym r.written)
        (operation_only-Edits db expected.customer_id r.customer r.operation
          (with_receipt r.provider r.operation) keyed r.held
          (record { customer = refl; kind = refl }) refl))
      (takes_receipt m expected r.provider (ap (receives m expected) r.number) r.takes refl)

-- `release_unsent_claim`
pub finished_rows :
    (db base : Db) (id : ℕ) (old : Option Work)
    → base.works ≡ db.works
    → recovery_work db id ≡ old
    → let after = save_finished old base in
      (after.customers ≡ base.customers)
      × (after.operations ≡ base.operations)
      × WritesWork db after id (map_work finished_work old)
finished_rows db base id none same found = (refl, refl, WritesWork-same db base id none same found)
finished_rows db base id (some w) same found = (
  refl,
  refl,
  WritesWork-put db (save_finished (some w) base) id w (finished_work w)
      (ap (put (λ (x : Work). x.coalescing_key) (finished_work w)) same) found refl,
)

pub record ReleaseRun (m : Moment) (expected : CustomerOpen) (db after : Db) : Type 0 where
  pub customer : Customer
  pub operation : Operation
  pub held : Holds db expected.customer_id (read_slot db customer operation)
  pub guards : Releases expected (read_slot db customer operation)
  pub written :
      after
      ≡ save_finished
          (recovery_work db operation.create_operation_id)
          (save_operation (unsent m operation) db)

pub release_run :
    (m : Moment) (expected : CustomerOpen) (db : Db) {after : Db}
    → release_unsent_claim m expected db ≡ ok after
    → ReleaseRun m expected db after
unfolding release_unsent_claim
release_run m expected db {after} h =
    let (c, locked, h1) = >>=-eq-ok (lock_customer m db expected.customer_id) _ h in
    let (op, found, h2) =
      >>=-eq-ok (or_raise (customer_operation db expected.customer_id) billing_customer_pending) _
        h1 in
    let (_, fits, h3) =
      >>=-eq-ok
        (check
          ((expected.may_create && fence_fits expected c op)
            && (is_none c.provider_customer_id
                && (is_possible_send op.operation_state && is_none op.recovery_hint_document)))
          billing_customer_pending)
        _ h2 in
    record {
      customer = c;
      operation = op;
      held = read_slot-Holds m db expected.customer_id c op locked (
          or_raise-eq-ok (customer_operation db expected.customer_id) billing_customer_pending
            found);
      guards = record {
        current = fence_fits-current expected c op (ground (arith, fits));
        in_flight = ground (arith, fits);
        no_identity = ground (arith, fits);
        no_receipt = ground (arith, fits);
      };
      written = ground (arith, h3);
    }

pub release_unsent_claim-Advances :
    (m : Moment) (expected : CustomerOpen) (db : Db) {after : Db}
    → IsKeyed op_key db.operations
    → release_unsent_claim m expected db ≡ ok after
    → Advances (releases m expected) db after
release_unsent_claim-Advances m expected db {after} keyed h =
    let r = release_run m expected db h in
    let s = read_slot db r.customer r.operation in
    let base = save_operation (unsent m r.operation) db in
    let id = r.operation.create_operation_id in
    let (customers, operations, works) = finished_rows db base id (recovery_work db id) refl refl in
    let next = save_finished (recovery_work db id) base in
    Advances-Edits (releases m expected) db after expected.customer_id s (released m s) r.held
      (subst (λ d. Edits db d expected.customer_id (released m s)) (sym r.written)
        (Edits-of db next expected.customer_id s (released m s) keyed r.held (left customers refl)
          (wrote operations refl) (record { customer = refl; kind = refl }) works))
      (takes_back m expected refl r.guards refl)
