-- ===== src/Customers/Steps/Claims.antt =====
-- `claim_customer_send` takes the steps of the relation: it leaves the tables alone, or it sends.
use payments_portal.Customers.Edits.{customer_key, Edits}
use payments_portal.Customers.Reviews.{admission_reviews}
use payments_portal.Customers.Run.{claims}
use payments_portal.Purchases.Evolution.{op_key}
use payments_portal.Customers.Steps.Sends.{
  read_slot, read_slot-Holds, lock_customer-get, send_rows-Edits,
}
use payments_portal.Store.Tables.{IsKeyed, get-key}
use payments_portal.Customers.Send.{
  has_identity, send_or_show, claim_customer_send, sending, shown_only, is_leased, claim_fits,
  send_rows,
}
use payments_portal.Store.{
  Db, Moment, Customer, Operation, Outcome, lock_customer, customer_operation, lock_user,
  recovery_work, billing_identity_conflict,
}
use payments_portal.Customers.Open.{
  CustomerOpen, customer_snapshot, receipt_id, Configuration, User, shown,
}
use payments_portal.Base.{
  ok, Option, ◌≡◌, Text, false, ap, arith, Bool, >>=-eq-ok, none, ◌⊎◌, refl, err, sym, Option-cases,
  some, ◌∙◌, inr, or_raise, true, inl, ◌||◌, not, check, opt_eq, subst, Bool-cases, opt_eq→eq,
  or_raise-eq-ok,
}
use payments_portal.Customers.Steps.{
  CustomerOpen, Db, Moment, receipt_id, Outcome, MaySend, IsKeyed, op_key, Advances, claims,
  Advances-same, Advances-Edits, sent, sends,
}

pub same_open : (a b : CustomerOpen) → ◌≡◌ {A = Outcome CustomerOpen} (ok a) (ok b) → a ≡ b
same_open a b e = ap (λ r. elim r [ ok x ↦ x | err _ ↦ a ]) e

pub same_receipt : (a b : Option Text) → ◌≡◌ {A = Outcome (Option Text)} (ok a) (ok b) → a ≡ b
same_receipt a b e = ap (λ r. elim r [ ok x ↦ x | err _ ↦ a ]) e

pub same_pair :
    (a b : CustomerOpen) (d e : Db)
    → ◌≡◌ {A = Outcome (CustomerOpen × Db)} (ok (a, d)) (ok (b, e))
    → (a ≡ b) × (d ≡ e)
same_pair a b d e h = ground arith

pub customer_snapshot-shown :
    (c : Customer) (op : Operation) (user : Option User) (may_create : Bool) {seen : CustomerOpen}
    → customer_snapshot c op user may_create ≡ ok seen
    → (receipt : Option Text) × (receipt_id op ≡ ok receipt)
      × (seen ≡ shown c op user may_create receipt)
unfolding customer_snapshot
customer_snapshot-shown c op user may_create {seen} h =
    let (receipt, is_receipt, e) = >>=-eq-ok (receipt_id op) _ h in
    (receipt, is_receipt, sym (same_open (shown c op user may_create receipt) seen e))

-- The two ways in which a claim returns.
abbrev pub IsSilent : Db → CustomerOpen → Db → Type 0
IsSilent db seen after = (seen.may_create ≡ false) × (after ≡ db)

pub record IsSent (m : Moment) (cfg : Configuration) (user : User) (expected : CustomerOpen)
    (db : Db) (c : Customer) (op : Operation) (seen : CustomerOpen) (after : Db) : Type 0 where
  pub may_send : MaySend m expected (read_slot db c op)
  pub shows : seen ≡ shown c (sending m op) (some user) true none
  pub written : after ≡ send_rows m cfg op db

send_columns : (m : Moment) (op : Operation) → receipt_id (sending m op) ≡ receipt_id op
unfolding receipt_id
send_columns m op = refl

shown_only-IsSilent :
    (c : Customer) (op : Operation) (db : Db) {seen : CustomerOpen} {after : Db}
    → shown_only c op db ≡ ok (seen, after)
    → IsSilent db seen after
shown_only-IsSilent c op db {seen} {after} h =
    let (x, taken, e) = >>=-eq-ok (customer_snapshot c op none false) _ h in
    let (receipt, _, is_shown) = customer_snapshot-shown c op none false taken in
    let (same, same_db) = same_pair x seen db after e in
    (ap (λ (s : CustomerOpen). s.may_create) (sym same ∙ is_shown), sym same_db)

unknown_identity :
    (c : Customer) (op : Operation)
    → has_identity c op ≡ ok false
    → (c.provider_customer_id ≡ none) × (receipt_id op ≡ ok none)
unfolding has_identity
unknown_identity c op h = elim (Option-cases c.provider_customer_id) [
  | inr (p, known) ↦ cc (rw (known, has_identity) at h)
  | inl nothing ↦
      let (receipt, is_receipt, e) =
        >>=-eq-ok (receipt_id op) _ (rw (nothing, has_identity) at h) in
      (nothing, ground (arith, is_receipt, e))
]

pub send_or_show_cases :
    (m : Moment) (cfg : Configuration) (user : User) (expected : CustomerOpen) (c : Customer)
    (op : Operation) (db : Db) {seen : CustomerOpen} {after : Db}
    → send_or_show m cfg user expected c op db ≡ ok (seen, after)
    → IsSilent db seen after ⊎ IsSent m cfg user expected db c op seen after
unfolding send_or_show
send_or_show_cases m cfg user expected c op db {seen} {after} h =
    let (known, is_known, h1) = >>=-eq-ok (has_identity c op) _ h in
    let leased = is_leased m.now (recovery_work db op.create_operation_id) in
    let kept = known || (not (opt_eq op.send_fence expected.fence) || leased) in
    elim (Bool-cases kept) [
      | inl keeps ↦ inl (shown_only-IsSilent c op db (rw keeps at h1))
      | inr opens ↦
          let (x, taken, e) =
            >>=-eq-ok (customer_snapshot c (sending m op) (some user) true) _ (rw opens at h1) in
          let (receipt, is_receipt, is_shown) =
            customer_snapshot-shown c (sending m op) (some user) true taken in
          let (same, same_db) = same_pair x seen (send_rows m cfg op db) after e in
          let unknown : known ≡ false = ground (arith, opens) in
          let (nothing, no_receipt) = unknown_identity c op (is_known ∙ ap ok unknown) in
          inr (record {
            may_send = record {
              no_identity = nothing;
              no_receipt = no_receipt;
              current = opt_eq→eq op.send_fence expected.fence (ground (arith, opens));
              no_lease = ground (arith, opens);
            };
            shows =
                sym same
                ∙ is_shown
                ∙ ap (shown c (sending m op) (some user) true)
                    (same_receipt receipt none (sym is_receipt ∙ send_columns m op ∙ no_receipt));
            written = sym same_db;
          })
    ]

-- What a claim has read when it returns.
pub record ClaimRun (m : Moment) (cfg : Configuration) (session : Outcome User)
    (expected : CustomerOpen) (db : Db) (seen : CustomerOpen) (after : Db) : Type 0 where
  pub user : User
  pub customer : Customer
  pub operation : Operation
  pub signed : session ≡ ok user
  pub locked : lock_customer m db expected.customer_id ≡ ok customer
  pub found : customer_operation db expected.customer_id ≡ some operation
  pub fits : claim_fits cfg user.user_id expected customer operation ≡ true
  pub admitted : admission_reviews db customer operation ≡ ok tt
  pub outcome : IsSilent db seen after ⊎ IsSent m cfg user expected db customer operation seen after

pub claim_run :
    (m : Moment) (cfg : Configuration) (session : Outcome User) (expected : CustomerOpen) (db : Db)
    {seen : CustomerOpen} {after : Db}
    → claim_customer_send m cfg session expected db ≡ ok (seen, after)
    → ClaimRun m cfg session expected db seen after
unfolding claim_customer_send
claim_run m cfg session expected db h =
    let (user, signed, h1) = >>=-eq-ok session _ h in
    let (_, _, h2) = >>=-eq-ok (lock_user m) _ h1 in
    let (c, locked, h3) = >>=-eq-ok (lock_customer m db expected.customer_id) _ h2 in
    let (op, found, h4) =
      >>=-eq-ok (or_raise (customer_operation db c.customer_id) billing_identity_conflict) _ h3 in
    let (_, fits, h5) =
      >>=-eq-ok (check (claim_fits cfg user.user_id expected c op) billing_identity_conflict) _
        h4 in
    let (_, admitted, h6) = >>=-eq-ok (admission_reviews db c op) _ h5 in
    record {
      user = user;
      customer = c;
      operation = op;
      signed = signed;
      locked = locked;
      found =
          subst (λ k. customer_operation db k ≡ some op)
            (get-key customer_key expected.customer_id db.customers
              (lock_customer-get m db expected.customer_id locked))
            (or_raise-eq-ok (customer_operation db c.customer_id) billing_identity_conflict found);
      fits = ground (arith, fits);
      admitted = admitted;
      outcome = send_or_show_cases m cfg user expected c op db h6;
    }

pub claim_customer_send-Advances :
    (m : Moment) (cfg : Configuration) (session : Outcome User) (expected : CustomerOpen) (db : Db)
    {seen : CustomerOpen} {after : Db}
    → IsKeyed op_key db.operations
    → claim_customer_send m cfg session expected db ≡ ok (seen, after)
    → Advances (claims m cfg session expected) db after
claim_customer_send-Advances m cfg session expected db {seen} {after} keyed h =
    let r = claim_run m cfg session expected db h in
    let held = read_slot-Holds m db expected.customer_id r.customer r.operation r.locked r.found in
    elim r.outcome [
      | inl silent ↦ Advances-same (claims m cfg session expected) db after keyed silent.1
      | inr s ↦
          Advances-Edits (claims m cfg session expected) db after expected.customer_id
            (read_slot db r.customer r.operation) (sent m cfg (read_slot db r.customer r.operation))
            held
            (subst
              (λ d.
                Edits db d expected.customer_id (sent m cfg (read_slot db r.customer r.operation)))
              (sym s.written)
              (send_rows-Edits m cfg db expected.customer_id r.customer r.operation keyed held))
            (sends m cfg session expected refl s.may_send refl)
    ]
