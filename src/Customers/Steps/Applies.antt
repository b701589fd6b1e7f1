-- ===== src/Customers/Steps/Applies.antt =====
-- `apply_customer_read` and one escalation take the steps of the relation.
use payments_portal.Customers.Edits.{Edits, customer_key}
use payments_portal.Customers.Reviews.{record_review, record_conflict, recovery_reviews}
use payments_portal.Customers.Steps.Reads.{
  already_bound-Advances, record_conflict-Edits, unread-Advances, bound_rows-Edits, reviewed-Edits,
}
use payments_portal.Customers.Run.{reads, escalates}
use payments_portal.Purchases.Evolution.{op_key}
use payments_portal.Store.Tables.{IsKeyed, get-key}
use payments_portal.Customers.Steps.Sends.{read_slot, read_slot-Holds, lock_customer-get}
use payments_portal.Customers.Open.{CustomerOpen, customer_snapshot}
use payments_portal.Customers.Overdue.{escalate_customer, escalate_create, is_overdue_create}
use payments_portal.Store.{
  Moment, Customer, Operation, Db, lock_customer, customer_operation, billing_customer_pending,
  external_create_outcome_unknown, Kind, billing_identity_conflict, billing_identity_unproven,
}
use payments_portal.Customers.Read.{
  conflicts_with, admit_read, bind_customer, read_rows, apply_customer_read, bound_slot,
  read_current, bound_create, keys_fit, breaks_provider, bound_create_rows,
}
use payments_portal.Base.{
  opt_text_eq→eq, ℕ, ok, Option, Text, Bool, some, ◌≡◌, false, >>=-eq-ok, ◌⊎◌, none, arith,
  or_raise, true, Result-cases, Bool-cases, Option-cases, inl, inr, ap, check, err, sym, refl, ◌∙◌,
  raise_if, subst, is_some, ◌&&◌, is_none, or_raise-eq-ok, opt_eq→eq, text_eq→eq,
}
use payments_portal.Customers.Slot.{Holds}
use payments_portal.Customers.Steps.{
  Moment, CustomerOpen, Db, IsKeyed, op_key, Advances, reads, Advances-Edits, Advances-same,
  refuted, refutes, reviewed, identified, Edits, takes_identity, goes_to_review,
}

-- A read that conflicts with nothing and names an identity.
pub conflict_free :
    (c : Customer) (provider : Text) (outer_key : Option Text) (ambiguous : Bool)
    → conflicts_with c (some provider) outer_key ambiguous ≡ false
    → (ambiguous ≡ false)
      × (outer_key ≡ some c.billing_customer_key)
      × ((c.provider_customer_id ≡ none) ⊎ (c.provider_customer_id ≡ some provider))
unfolding conflicts_with
conflict_free c provider outer_key ambiguous h = (
  ground (arith, h),
  opt_text_eq→eq outer_key (some c.billing_customer_key) (ground (arith, h)),
  elim (Option-cases c.provider_customer_id) [
    | inl nothing ↦ inl nothing
    | inr (p, known) ↦
        inr (opt_text_eq→eq c.provider_customer_id (some provider) (ground (arith, h, known)))
  ],
)

-- What a read has met where it is not refused at once.
pub record ReadRun (m : Moment) (expected : CustomerOpen) (provider outer_key : Option Text)
    (db : Db) (c : Customer) (op : Operation) : Type 0 where
  pub held : Holds db expected.customer_id (read_slot db c op)
  pub current : op.send_fence ≡ expected.fence
  pub same_operation : op.create_operation_id ≡ expected.operation_id
  pub keys :
      (c.billing_customer_key ≡ expected.outer_key)
      × (op.request_correlation_key ≡ expected.outer_key)

pub read_run :
    (m : Moment) (expected : CustomerOpen) (provider outer_key : Option Text) (db : Db)
    {c : Customer} {op : Operation}
    → admit_read m expected provider outer_key db ≡ ok (c, op)
    → ReadRun m expected provider outer_key db c op
unfolding admit_read
read_run m expected provider outer_key db {c} {op} h =
    let k = expected.customer_id in
    let (c', locked, h1) = >>=-eq-ok (lock_customer m db k) _ h in
    let (op', found, h2) =
      >>=-eq-ok (or_raise (customer_operation db c'.customer_id) billing_customer_pending) _ h1 in
    let (_, current, h3) =
      >>=-eq-ok (check (read_current expected op') billing_customer_pending) _ h2 in
    let (_, keys, h4) =
      >>=-eq-ok (check (keys_fit expected c' op') billing_identity_conflict) _ h3 in
    let (reviews, _, h5) = >>=-eq-ok (recovery_reviews db c' op') _ h4 in
    let (_, _, h6) =
      >>=-eq-ok (raise_if (is_some provider && is_none outer_key) billing_identity_unproven) _ h5 in
    let same_c : c' ≡ c = ground (arith, h6) in
    let same_op : op' ≡ op = ground (arith, h6) in
    let stored = lock_customer-get m db k locked in
    let run : ReadRun m expected provider outer_key db c' op' = record {
      held = read_slot-Holds m db k c' op' locked (
          subst (λ i. customer_operation db i ≡ some op')
            (get-key customer_key k db.customers stored)
            (or_raise-eq-ok (customer_operation db c'.customer_id) billing_customer_pending found));
      current = opt_eq→eq op'.send_fence expected.fence (ground (arith, current));
      same_operation = ground (arith, current);
      keys = (
        text_eq→eq c'.billing_customer_key expected.outer_key (ground (arith, keys)),
        text_eq→eq op'.request_correlation_key expected.outer_key (ground (arith, keys)),
      );
    } in
    subst (λ x. ReadRun m expected provider outer_key db x op) same_c
      (subst (λ y. ReadRun m expected provider outer_key db c' y) same_op run)

bind_customer-Advances :
    (m again : Moment) (expected : CustomerOpen) (provider : Text) (outer_key : Option Text)
    (ambiguous : Bool) (db : Db) (c : Customer) (op : Operation)
    → IsKeyed op_key db.operations
    → ReadRun m expected (some provider) outer_key db c op
    → conflicts_with c (some provider) outer_key ambiguous ≡ false
    → Advances
        (reads m again expected (some provider) outer_key ambiguous)
        db
        (bind_customer m again expected provider c op db).1
unfolding bind_customer
bind_customer-Advances m again expected provider outer_key ambiguous db c op keyed r free =
    let t = reads m again expected (some provider) outer_key ambiguous in
    let k = expected.customer_id in
    let s = read_slot db c op in
    let (not_ambiguous, same_key, slot) = conflict_free c provider outer_key ambiguous free in
    elim (Result-cases
      (customer_snapshot (bound_slot provider c) (bound_create m provider c op) none false)) [
        | inr (e, refused) ↦ rw (refused, bind_customer) (Advances-same t db db keyed refl)
        | inl (seen, taken) ↦ elim (Bool-cases (breaks_provider c provider db.customers)) [
          | inl broken ↦
              rw (taken, broken, bind_customer)
                (already_bound-Advances t again expected db c op keyed r.held)
          | inr unique ↦
              rw (taken, unique, bind_customer)
                (Advances-Edits t db (bound_create_rows m provider c op db) k s
                  (identified m provider s) r.held
                  (bound_rows-Edits m provider db k c op keyed r.held)
                  (takes_identity m again expected provider outer_key
                    (ap (reads m again expected (some provider) outer_key) not_ambiguous)
                    (record {
                      current = r.current;
                      same_key = same_key;
                      keys = r.keys;
                      free = slot;
                    })
                    refl))
        ]
      ]

read_rows-Advances :
    (m again : Moment) (expected : CustomerOpen) (provider outer_key : Option Text)
    (ambiguous : Bool) (db : Db) (c : Customer) (op : Operation)
    → IsKeyed op_key db.operations
    → ReadRun m expected provider outer_key db c op
    → Advances
        (reads m again expected provider outer_key ambiguous)
        db
        (read_rows m again expected provider outer_key ambiguous c op db).1
unfolding read_rows
read_rows-Advances m again expected provider outer_key ambiguous db c op keyed r =
    let t = reads m again expected provider outer_key ambiguous in
    let k = expected.customer_id in
    let s = read_slot db c op in
    elim (Bool-cases (conflicts_with c provider outer_key ambiguous)) [
      | inl conflict ↦
          rw (conflict, read_rows)
            (Advances-Edits t db (record_conflict m c op provider ambiguous db) k s (refuted m s)
              r.held (record_conflict-Edits m db k c op provider ambiguous keyed r.held)
              (refutes m refl))
      | inr free ↦ elim (Option-cases provider) [
        | inl nothing ↦
            rw (free, nothing, read_rows)
              (unread-Advances (reads m again expected none outer_key ambiguous) m db k c op keyed
                r.held)
        | inr (id, given) ↦
            rw (free, given, read_rows)
              (bind_customer-Advances m again expected id outer_key ambiguous db c op keyed
                (subst (λ p. ReadRun m expected p outer_key db c op) given r)
                (subst (λ p. conflicts_with c p outer_key ambiguous ≡ false) given free))
      ]
    ]

pub apply_customer_read-Advances :
    (m again : Moment) (expected : CustomerOpen) (provider outer_key : Option Text)
    (ambiguous : Bool) (db : Db)
    → IsKeyed op_key db.operations
    → Advances
        (reads m again expected provider outer_key ambiguous)
        db
        (apply_customer_read m again expected provider outer_key ambiguous db).1
unfolding apply_customer_read
apply_customer_read-Advances m again expected provider outer_key ambiguous db keyed =
    elim (Result-cases (admit_read m expected provider outer_key db)) [
      | inr (e, refused) ↦
          rw (refused, apply_customer_read)
            (Advances-same (reads m again expected provider outer_key ambiguous) db db keyed refl)
      | inl ((c, op), admitted) ↦
          rw (admitted, apply_customer_read)
            (read_rows-Advances m again expected provider outer_key ambiguous db c op keyed
              (read_run m expected provider outer_key db admitted))
    ]

escalate_cases :
    (instant : ℕ) (found : Option Operation) (db : Db)
    → ((escalate_create instant found db).1 ≡ db)
      ⊎ ((op : Operation) × (found ≡ some op)
          × (is_overdue_create instant op ≡ true)
          × ((escalate_create instant found db).1
              ≡ record_review op (external_create_outcome_unknown Kind.customer) db))
escalate_cases instant none db = inl refl
escalate_cases instant (some op) db = elim (Bool-cases (is_overdue_create instant op)) [
  | inl late ↦ inr (op, refl, late, rw late refl)
  | inr early ↦ inl (rw early refl)
]

pub escalate_customer-Advances :
    (m : Moment) (instant id : ℕ) (db : Db) {escalated : Bool} {after : Db}
    → IsKeyed op_key db.operations
    → escalate_customer m instant id db ≡ ok (escalated, after)
    → Advances (escalates m instant id) db after
unfolding escalate_customer
escalate_customer-Advances m instant id db {escalated} {after} keyed h =
    let t = escalates m instant id in
    let (c, locked, e) = >>=-eq-ok (lock_customer m db id) _ h in
    let written : (escalate_create instant (customer_operation db id) db).1 ≡ after =
      ap (λ r. elim r [ ok x ↦ x.1 | err _ ↦ after ]) e in
    elim (escalate_cases instant (customer_operation db id) db) [
      | inl same ↦ Advances-same t db after keyed (sym written ∙ same)
      | inr (op, found, _, rows) ↦
          let s = read_slot db c op in
          let held = read_slot-Holds m db id c op locked found in
          Advances-Edits t db after id s (reviewed s) held
            (subst (λ d. Edits db d id (reviewed s)) (sym rows ∙ written)
              (reviewed-Edits db id c op (external_create_outcome_unknown Kind.customer) keyed
                held))
            (goes_to_review refl)
    ]
