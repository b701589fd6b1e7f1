-- ===== src/Customers/Read/Returns.antt =====
-- What a point read that returns has gone through.
use payments_portal.Customers.Steps.Claims.{customer_snapshot-shown}
use payments_portal.Customers.Scope.{is_text}
use payments_portal.Customers.Open.{CustomerOpen, customer_snapshot}
use payments_portal.Customers.Read.{
  breaks_provider, already_bound, unread, bind_customer, apply_customer_read, CustomerOpen,
  Operation, read_rows, Db, is_text, lock_customer, Outcome, bound_create_rows, admit_read,
  is_pending, bound_slot, is_past, bound_create, is_reviewed, conflicts_with,
  billing_identity_conflict,
}
use payments_portal.Store.{
  Customer, Moment, Operation, Db, lock_customer, Outcome, is_pending, is_reviewed, Error,
  billing_identity_conflict,
}
use payments_portal.Base.{
  ok, refl, Text, ◌≢◌, Option, List, ◌≡◌, Bool, some, false, Result-cases, ap, All, none, true,
  All-map, inr, Bool-cases, text_eq_refl, text_eq, inl, arith, any-eq-false, not, sym, ◌∙◌, ◌==◌,
  ◌&&◌, err,
}

-- No other customer of the account has the identity.
abbrev pub IsOwn : Customer → Text → Customer → Type 0
IsOwn c provider r =
    r.customer_id ≢ c.customer_id
    → r.external_billing_account_id ≡ c.external_billing_account_id
    → r.provider_customer_id ≢ some provider

is_text_refl : (t : Text) (o : Option Text) → o ≡ some t → is_text t o ≡ true
is_text_refl t o h = rw h (text_eq_refl t)

pub unshared_rows :
    (c : Customer) (provider : Text) (rows : List Customer)
    → breaks_provider c provider rows ≡ false
    → All (IsOwn c provider) rows
unfolding breaks_provider
unshared_rows c provider rows h =
    All-map
      (λ (r : Customer).
        (not (r.customer_id == c.customer_id)
          && (text_eq r.external_billing_account_id c.external_billing_account_id
              && is_text provider r.provider_customer_id))
        ≡ false)
      (IsOwn c provider)
      (λ r none_has other same known.
        let account : text_eq r.external_billing_account_id c.external_billing_account_id ≡ true =
          rw same (text_eq_refl c.external_billing_account_id) in
        let theirs = is_text_refl provider r.provider_customer_id known in
        ground (arith, none_has, account, theirs, other))
      rows
      (any-eq-false
        (λ (r : Customer).
          not (r.customer_id == c.customer_id)
          && (text_eq r.external_billing_account_id c.external_billing_account_id
              && is_text provider r.provider_customer_id))
        rows h)

absurd_conflict :
    {A : Type 0} (again : Moment) (expected : CustomerOpen) (db : Db) (seen : CustomerOpen)
    (after : Db)
    → already_bound again expected db ≡ (ok seen, after)
    → A
unfolding already_bound
absurd_conflict again expected db seen after h =
    elim (Result-cases (lock_customer again db expected.customer_id)) [
      | inr (e, refused) ↦
          cc (ap (λ (r : Outcome CustomerOpen × Db). r.0) (rw (refused, already_bound) at h))
      | inl (c, locked) ↦
          cc (ap (λ (r : Outcome CustomerOpen × Db). r.0) (rw (locked, already_bound) at h))
    ]

pub unread_refuses :
    {A : Type 0} (m : Moment) (op : Operation) (db : Db) {seen : CustomerOpen} {after : Db}
    → unread m op db ≡ (ok seen, after)
    → A
unfolding unread
unread_refuses m op db {seen} {after} h =
    let first : (unread m op db).0 ≡ ok seen = ap (λ (r : Outcome CustomerOpen × Db). r.0) h in
    elim (Bool-cases (is_pending op.operation_state)) [
      | inl fresh ↦ cc (rw (fresh, unread) at first)
      | inr claimed ↦ elim (Bool-cases (is_past m op.unknown_recovery_deadline_at)) [
        | inl late ↦ cc (rw (claimed, late, unread) at first)
        | inr early ↦ elim (Bool-cases (is_reviewed op.operation_state)) [
          | inl resting ↦ cc (rw (claimed, early, resting, unread) at first)
          | inr other ↦ cc (rw (claimed, early, other, unread) at first)
        ]
      ]
    ]

pub binding_returns :
    (m again : Moment) (expected : CustomerOpen) (provider : Text) (c : Customer) (op : Operation)
    (db : Db) {seen : CustomerOpen} {after : Db}
    → bind_customer m again expected provider c op db ≡ (ok seen, after)
    → (breaks_provider c provider db.customers ≡ false)
      × (after ≡ bound_create_rows m provider c op db)
      × (seen.provider_id ≡ some provider)
      × (seen.may_create ≡ false)
unfolding bind_customer
binding_returns m again expected provider c op db {seen} {after} h =
    elim (Result-cases
      (customer_snapshot (bound_slot provider c) (bound_create m provider c op) none false)) [
        | inr (e, refused) ↦
            cc (ap (λ (r : Outcome CustomerOpen × Db). r.0) (rw (refused, bind_customer) at h))
        | inl (x, taken) ↦ elim (Bool-cases (breaks_provider c provider db.customers)) [
          | inl broken ↦
              absurd_conflict again expected db seen after (rw (taken, broken, bind_customer) at h)
          | inr unique ↦
              let h1 = rw (taken, unique, bind_customer) at h in
              let (receipt, _, is_shown) =
                customer_snapshot-shown (bound_slot provider c) (bound_create m provider c op) none
                  false taken in
              let same : x ≡ seen = ground (arith, h1) in
              let written : bound_create_rows m provider c op db ≡ after = ground (arith, h1) in
              (
                unique,
                sym written,
                ap (λ (s : CustomerOpen). s.provider_id) (sym same ∙ is_shown),
                ap (λ (s : CustomerOpen). s.may_create) (sym same ∙ is_shown),
              )
        ]
      ]

pub conflict_refuses :
    (m again : Moment) (expected : CustomerOpen) (provider outer_key : Option Text)
    (ambiguous : Bool) (db : Db) (c : Customer) (op : Operation)
    → conflicts_with c provider outer_key ambiguous ≡ true
    → (read_rows m again expected provider outer_key ambiguous c op db).0
      ≡ err billing_identity_conflict
unfolding read_rows
conflict_refuses m again expected provider outer_key ambiguous db c op h = rw (h, read_rows) refl

pub absurd_outcome :
    {A : Type 0} {r : Outcome CustomerOpen × Db} {seen : CustomerOpen} {after : Db} {e : Error}
    → r ≡ (ok seen, after)
    → r.0 ≡ err e
    → A
absurd_outcome {r} {seen} {after} {e} h g =
    let first : ◌≡◌ {A = Outcome CustomerOpen} (ok seen) (err e) =
      sym (ap (λ (x : Outcome CustomerOpen × Db). x.0) h) ∙ g in
    cc first

pub admitted_read :
    (m again : Moment) (expected : CustomerOpen) (provider outer_key : Option Text)
    (ambiguous : Bool) (db : Db) (c : Customer) (op : Operation)
    → admit_read m expected provider outer_key db ≡ ok (c, op)
    → apply_customer_read m again expected provider outer_key ambiguous db
      ≡ read_rows m again expected provider outer_key ambiguous c op db
unfolding apply_customer_read
admitted_read m again expected provider outer_key ambiguous db c op h =
    rw (h, apply_customer_read) refl

pub refused_read :
    (m again : Moment) (expected : CustomerOpen) (provider outer_key : Option Text)
    (ambiguous : Bool) (db : Db) (e : Error)
    → admit_read m expected provider outer_key db ≡ err e
    → (apply_customer_read m again expected provider outer_key ambiguous db).0 ≡ err e
unfolding apply_customer_read
refused_read m again expected provider outer_key ambiguous db e h = rw (h, apply_customer_read) refl
