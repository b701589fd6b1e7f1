-- ===== src/Purchases/Evolution.antt =====
-- How one financial create operation may change over the transactions of
-- apps/api/app/domains/purchases/financial.py, and what holds of its columns.
use payments_portal.Customers.Open.{recovery_window}
use payments_portal.Base.{
  ℕ, ◌+◌, ◌≡◌, ◌⊎◌, inr, refl, Bool, true, false, Option, none, some, List, ◌==◌, All-find?,
  All-select, All-append, is_some, ok, or_raise-eq-ok, sym, subst, ◌∙◌, select, find?, inl,
}
use native.Mathlib.Decide.{ℕ_discrete}
use mathlib.Core.Option.{some-injective}
use payments_portal.Store.{
  Db, Operation, State, operations, agreement, subscription, of_purchase, stop_iteration, is_bound,
  is_open_send, is_pending,
}
use payments_portal.Store.Tables.{get, put, IsKeyed, get-put_self, get-put_ne, put-IsKeyed}
use payments_portal.Purchases.Locking.{next_operation}

abbrev pub op_key : Operation → ℕ
op_key o = o.create_operation_id

-- The moves between the states of a financial operation.
abbrev pub may_become : State → State → Bool
may_become State.pending State.possible_send = true
may_become State.pending State.pending = true
may_become State.proven_not_sent State.possible_send = true
may_become State.proven_not_sent State.proven_not_sent = true
may_become State.possible_send State.proven_not_sent = true
may_become State.possible_send State.possible_send = true
may_become State.possible_send State.unknown = true
may_become State.possible_send State.bound = true
may_become State.unknown State.proven_not_sent = true
may_become State.unknown State.unknown = true
may_become State.unknown State.bound = true
may_become State.bound State.bound = true
may_become State.manual_review State.bound = true
may_become _ State.manual_review = true
may_become _ _ = false

-- The states that only a claimed send reaches.
abbrev pub follows_send : State → Bool
follows_send State.pending = false
follows_send State.manual_review = false
follows_send _ = true

abbrev pub may_be_bound : State → Bool
may_be_bound State.bound = true
may_be_bound State.manual_review = true
may_be_bound _ = false

abbrev after_window : Option ℕ → Option ℕ
after_window none = none
after_window (some since) = some (since + recovery_window)

-- The first send's window is closed two hours after it (`ck_external_create_operations_unknown_pair`
-- and `..._unknown_deadline`), an operation that was never claimed has no history, a state behind
-- a send has one, and an identity is bound exactly in the state `bound`, or kept in review.
pub record IsSound (o : Operation) : Type 0 where
  pub window : o.unknown_recovery_deadline_at ≡ after_window o.unknown_since
  pub fresh : (is_pending o.operation_state ≡ false) ⊎ (o.unknown_since ≡ none)
  pub history : (follows_send o.operation_state ≡ false) ⊎ (is_some o.unknown_since ≡ true)
  pub bound : (is_bound o.operation_state ≡ false) ⊎ (is_some o.bound_external_object_id ≡ true)
  pub unbound : (may_be_bound o.operation_state ≡ true) ⊎ (o.bound_external_object_id ≡ none)

-- From one version of the row to a later one: identity stays, a bound identity stays, the first
-- send's history stays, the state moves along the table, and only where `reopens` says so does an
-- operation become open for a send again.
pub record Evolves (reopens : Bool) (o o' : Operation) : Type 0 where
  pub same_id : o'.create_operation_id ≡ o.create_operation_id
  pub same_kind : o'.operation_kind ≡ o.operation_kind
  pub same_purchase : o'.purchase_intent_id ≡ o.purchase_intent_id
  pub same_key : o'.request_correlation_key ≡ o.request_correlation_key
  pub keeps_binding :
      (o.bound_external_object_id ≡ none)
      ⊎ (o'.bound_external_object_id ≡ o.bound_external_object_id)
  pub keeps_history :
      (o.unknown_since ≡ none)
      ⊎ ((o'.unknown_since ≡ o.unknown_since)
          × (o'.recovery_hint_document ≡ o.recovery_hint_document))
  pub moves : may_become o.operation_state o'.operation_state ≡ true
  pub stays_shut :
      (reopens ≡ true)
      ⊎ ((is_open_send o'.operation_state ≡ false) ⊎ (is_open_send o.operation_state ≡ true))

may_become_refl : (s : State) → may_become s s ≡ true
may_become_refl State.pending = refl
may_become_refl State.proven_not_sent = refl
may_become_refl State.possible_send = refl
may_become_refl State.unknown = refl
may_become_refl State.bound = refl
may_become_refl State.manual_review = refl

open_or_shut : (b : Bool) → (b ≡ false) ⊎ (b ≡ true)
open_or_shut true = inr refl
open_or_shut false = inl refl

pub Evolves-refl : (reopens : Bool) (o : Operation) → Evolves reopens o o
Evolves-refl reopens o = record {
  same_id = refl;
  same_kind = refl;
  same_purchase = refl;
  same_key = refl;
  keeps_binding = inr refl;
  keeps_history = inr (refl, refl);
  moves = may_become_refl o.operation_state;
  stays_shut = inr (open_or_shut (is_open_send o.operation_state));
}

-- The operation with the identity `id` has evolved soundly into what the tables hold now.
abbrev pub Kept : Bool → List Operation → ℕ → Operation → Type 0
Kept reopens rows id o =
    (o' : Operation) × (get op_key id rows ≡ some o') × Evolves reopens o o' × IsSound o'

pub Kept-same :
    (reopens : Bool) (rows : List Operation) (id : ℕ) (o : Operation)
    → get op_key id rows ≡ some o
    → IsSound o
    → Kept reopens rows id o
Kept-same reopens rows id o e s = (o, e, Evolves-refl reopens o, s)

-- A row that the purchase's query returns is the row under its key.
pub operations-find-get :
    (db : Db) (purchase_id : ℕ) (p : Operation → Bool) {op : Operation}
    → IsKeyed op_key db.operations
    → find? p (operations db purchase_id) ≡ some op
    → get op_key op.create_operation_id db.operations ≡ some op
unfolding operations
operations-find-get db purchase_id p keyed e =
    let P = λ (o : Operation). get op_key o.create_operation_id db.operations ≡ some o in
    All-find? P p (operations db purchase_id)
      (All-append P (select (of_purchase purchase_id agreement) db.operations)
        (select (of_purchase purchase_id subscription) db.operations)
        (All-select P (of_purchase purchase_id agreement) db.operations keyed)
        (All-select P (of_purchase purchase_id subscription) db.operations keyed))
      e

pub operations-get :
    (db : Db) (purchase_id id : ℕ) {op : Operation}
    → IsKeyed op_key db.operations
    → next_operation id (operations db purchase_id) ≡ ok op
    → get op_key op.create_operation_id db.operations ≡ some op
unfolding next_operation
operations-get db purchase_id id keyed e =
    operations-find-get db purchase_id (λ o. o.create_operation_id == id) keyed
      (or_raise-eq-ok _ stop_iteration e)

pub Kept-put :
    (reopens : Bool) (rows : List Operation) (new op : Operation) (id : ℕ) (o : Operation)
    → get op_key op.create_operation_id rows ≡ some op
    → new.create_operation_id ≡ op.create_operation_id
    → (IsSound op → Evolves reopens op new × IsSound new)
    → get op_key id rows ≡ some o
    → IsSound o
    → Kept reopens (put op_key new rows) id o
Kept-put reopens rows new op id o found same step e s =
    elim (ℕ_discrete op.create_operation_id id) [
      | yes here ↦
          let at_id : get op_key id rows ≡ some op =
            subst (λ k. get op_key k rows ≡ some op) here found in
          let is_o : op ≡ o = some-injective op o (sym at_id ∙ e) in
          let (evolves, sound) = step (subst IsSound (sym is_o) s) in
          let stored : get op_key new.create_operation_id (put op_key new rows) ≡ some new =
            get-put_self op_key new rows {old = op}
              (subst (λ k. get op_key k rows ≡ some op) (sym same) found) in
          (
            new,
            subst (λ k. get op_key k (put op_key new rows) ≡ some new) (same ∙ here) stored,
            subst (λ p. Evolves reopens p new) is_o evolves,
            sound,
          )
      | no there ↦ (
        o,
        get-put_ne op_key id new rows (λ q. there (sym same ∙ q)) ∙ e,
        Evolves-refl reopens o,
        s,
      )
    ]

-- From the tables before to the tables after a transaction: the operations' identities stay primary
-- keys, and every operation that was there has evolved soundly.
pub record Advances (reopens : Bool) (db after : Db) : Type 0 where
  pub keyed : IsKeyed op_key after.operations
  pub kept :
      (id : ℕ) (o : Operation)
      → get op_key id db.operations ≡ some o
      → IsSound o
      → Kept reopens after.operations id o

pub Advances-same :
    (reopens : Bool) (db after : Db)
    → IsKeyed op_key db.operations
    → after.operations ≡ db.operations
    → Advances reopens db after
Advances-same reopens db after keyed same = record {
  keyed = rw same keyed;
  kept = λ id o stored sound. rw same (Kept-same reopens db.operations id o stored sound);
}

pub Advances-put :
    (reopens : Bool) (db after : Db) (op new : Operation)
    → IsKeyed op_key db.operations
    → get op_key op.create_operation_id db.operations ≡ some op
    → after.operations ≡ put op_key new db.operations
    → new.create_operation_id ≡ op.create_operation_id
    → (IsSound op → Evolves reopens op new × IsSound new)
    → Advances reopens db after
Advances-put reopens db after op new keyed found written same step = record {
  keyed = rw written (
      put-IsKeyed op_key new db.operations {old = op}
        (subst (λ k. get op_key k db.operations ≡ some op) (sym same) found) keyed);
  kept = λ id o stored sound.
      rw written (Kept-put reopens db.operations new op id o found same step stored sound);
}
