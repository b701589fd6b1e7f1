-- ===== src/Customers/Reviews/Admits.antt =====
-- Which open reviews let the customer's create and its recovery go on.
use payments_portal.Customers.Reviews.{
  check_reviews, admission_reviews, Operation, Db, is_key_review, is_conflicting, State,
  open_reviews, names_identity, is_reviewed, allows_key_recovery, recovery_reviews,
}
use payments_portal.Store.{
  Customer, ReviewCase, Operation, Db, is_conflicting, State, open_reviews, is_reviewed,
}
use payments_portal.Base.{
  sym, subst, opt_text_eq→eq, opt_text_eq_refl, text_eq→eq, text_eq_refl, Result-cases, Bool-cases,
  ok, refl, ◌≡◌, List, any, All, ◌↔◌, true, is_some, ◌⊎◌, false, inl, arith, all, inr, select,
  opt_text_eq, text_eq,
}
use payments_portal.Customers.Reviews.Reasons.{
  IsUnknownOutcome, IsKeyMismatch, check_reviews_iff, unknown_reasons, unknown_allowed,
  known_reasons, known_allowed,
}

-- What lets a recovery pass a recorded key mismatch: the slot and its create, in review, have one
-- identity and one key, and each of the mismatches is recorded with them.
pub record IsKeyProven (c : Customer) (op : Operation) (reviews : List ReviewCase) : Type 0 where
  pub recorded : any is_key_review reviews ≡ true
  pub identified : is_some c.provider_customer_id ≡ true
  pub one_identity : op.bound_external_object_id ≡ c.provider_customer_id
  pub one_key : op.request_correlation_key ≡ c.billing_customer_key
  pub in_review : op.operation_state ≡ State.manual_review
  pub evidence : all (names_identity c op) (select is_key_review reviews) ≡ true

-- An admission passes exactly where the customer is in no identity conflict and every open review
-- of its create is an unknown outcome.
pub admission_reviews_iff :
    (db : Db) (c : Customer) (op : Operation)
    → (admission_reviews db c op ≡ ok tt) ↔ (
        (is_conflicting c.binding_state ≡ false)
        × All IsUnknownOutcome (open_reviews db op.create_operation_id))
unfolding admission_reviews
admission_reviews_iff db c op =
    let reviews = open_reviews db op.create_operation_id in
    let both = check_reviews_iff c reviews false in
    (
      λ h.
          let (calm, fits) = both.0 h in
          (ground (arith, calm), unknown_reasons false reviews refl fits),
      λ h. both.1 (inl h.0, unknown_allowed false reviews h.1),
    )

reviewed_state : (s : State) → (is_reviewed s ≡ true) ↔ (s ≡ State.manual_review)
reviewed_state State.manual_review = (λ h. refl, λ h. refl)
reviewed_state State.pending = (λ h. cc h, λ h. cc h)
reviewed_state State.proven_not_sent = (λ h. cc h, λ h. cc h)
reviewed_state State.possible_send = (λ h. cc h, λ h. cc h)
reviewed_state State.unknown = (λ h. cc h, λ h. cc h)
reviewed_state State.bound = (λ h. cc h, λ h. cc h)

key_proven :
    (c : Customer) (op : Operation) (reviews : List ReviewCase)
    → (allows_key_recovery c op reviews ≡ true) ↔ IsKeyProven c op reviews
unfolding allows_key_recovery
key_proven c op reviews = (
  λ h. record {
    recorded = ground (arith, h);
    identified = ground (arith, h);
    one_identity =
        opt_text_eq→eq op.bound_external_object_id c.provider_customer_id (ground (arith, h));
    one_key = text_eq→eq op.request_correlation_key c.billing_customer_key (ground (arith, h));
    in_review = (reviewed_state op.operation_state).0 (ground (arith, h));
    evidence = ground (arith, h);
  },
  λ p. ground (
    arith,
    p.recorded,
    p.identified,
    subst (λ x. opt_text_eq x c.provider_customer_id ≡ true) (sym p.one_identity)
        (opt_text_eq_refl c.provider_customer_id),
    subst (λ x. text_eq x c.billing_customer_key ≡ true) (sym p.one_key)
        (text_eq_refl c.billing_customer_key),
    (reviewed_state op.operation_state).1 p.in_review,
    p.evidence,
  ),
)

recovery_checks :
    (db : Db) (c : Customer) (op : Operation)
    → let reviews = open_reviews db op.create_operation_id in
      (recovery_reviews db c op ≡ ok reviews)
      ↔ (check_reviews c reviews (allows_key_recovery c op reviews) ≡ ok tt)
unfolding recovery_reviews
recovery_checks db c op =
    let reviews = open_reviews db op.create_operation_id in
    (
      λ h. elim (Result-cases (check_reviews c reviews (allows_key_recovery c op reviews))) [
        | inl (tt, passed) ↦ passed
        | inr (e, refused) ↦ cc (rw (refused, recovery_reviews) at h)
      ],
      λ h. rw (h, recovery_reviews) refl,
    )

-- A recovery passes with the open reviews of the create exactly where the customer is in no
-- identity conflict and each of them is an unknown outcome, or where a key mismatch is recorded
-- with the evidence of the proven identity and each of them is that or an unknown outcome.
pub recovery_reviews_iff :
    (db : Db) (c : Customer) (op : Operation)
    → let reviews = open_reviews db op.create_operation_id in
      (recovery_reviews db c op ≡ ok reviews) ↔ (
        ((is_conflicting c.binding_state ≡ false) × All IsUnknownOutcome reviews)
        ⊎ (IsKeyProven c op reviews × All (λ r. IsUnknownOutcome r ⊎ IsKeyMismatch r) reviews))
recovery_reviews_iff db c op =
    let reviews = open_reviews db op.create_operation_id in
    let key = allows_key_recovery c op reviews in
    let both = check_reviews_iff c reviews key in
    let run = recovery_checks db c op in
    let proven = key_proven c op reviews in
    (
      λ h.
          let (calm, fits) = both.0 (run.0 h) in
          elim (Bool-cases key) [
            | inl is_proven ↦ inr (proven.0 is_proven, known_reasons key reviews fits)
            | inr unproven ↦
                inl (ground (arith, calm, unproven), unknown_reasons key reviews unproven fits)
          ],
      λ h. run.1 (
          both.1 (elim h [
            | inl (calm, unknown) ↦ (inl calm, unknown_allowed key reviews unknown)
            | inr (p, known) ↦ (inr (proven.1 p), known_allowed key reviews (proven.1 p) known)
          ])),
    )
