-- ===== src/Customers/Reviews/Reasons.antt =====
-- What the reason codes of the open reviews let pass.
use payments_portal.Customers.Reviews.{
  check_reviews, ReasonCode, external_create_outcome_unknown, customer_original_key_mismatch,
  is_allowed, Kind, is_conflicting,
}
use payments_portal.Store.{
  Customer, ReviewCase, ReasonCode, external_create_outcome_unknown, customer_original_key_mismatch,
  Kind, is_conflicting, other_reason, financial_binding_conflict,
  accepted_terms_changed_after_preparation, customer_identity_conflict,
}
use payments_portal.Base.{
  ◌∙◌, ok, refl, Bool, ◌≡◌, List, any, All, ◌↔◌, true, not, ◌⊎◌, false, inl, ◌∷◌, arith, inr,
  All-map, [], ap,
}

abbrev pub IsUnknownOutcome : ReviewCase → Type 0
IsUnknownOutcome r = r.reason_code ≡ external_create_outcome_unknown Kind.customer

abbrev pub IsKeyMismatch : ReviewCase → Type 0
IsKeyMismatch r = r.reason_code ≡ customer_original_key_mismatch

allowed_reason :
    (key : Bool) (r : ReasonCode)
    → is_allowed key r ≡ true
    → (r ≡ external_create_outcome_unknown Kind.customer)
      ⊎ ((key ≡ true) × (r ≡ customer_original_key_mismatch))
allowed_reason key (external_create_outcome_unknown Kind.customer) h = inl refl
allowed_reason key customer_original_key_mismatch h = inr (h, refl)
allowed_reason key (external_create_outcome_unknown Kind.agreement) h = cc h
allowed_reason key (external_create_outcome_unknown Kind.subscription) h = cc h
allowed_reason key financial_binding_conflict h = cc h
allowed_reason key accepted_terms_changed_after_preparation h = cc h
allowed_reason key customer_identity_conflict h = cc h
allowed_reason key (other_reason t) h = cc h

none_blocked :
    (key : Bool) (reviews : List ReviewCase)
    → any (λ (r : ReviewCase). not (is_allowed key r.reason_code)) reviews ≡ false
    → All (λ r. is_allowed key r.reason_code ≡ true) reviews
none_blocked key [] h = tt
none_blocked key (r ∷ reviews) h = (ground (arith, h), none_blocked key reviews (ground (arith, h)))

allowed_passes :
    (key : Bool) (reviews : List ReviewCase)
    → All (λ r. is_allowed key r.reason_code ≡ true) reviews
    → any (λ (r : ReviewCase). not (is_allowed key r.reason_code)) reviews ≡ false
allowed_passes key [] h = refl
allowed_passes key (r ∷ reviews) h = ground (arith, h.0, allowed_passes key reviews h.1)

pub check_reviews_iff :
    (c : Customer) (reviews : List ReviewCase) (key : Bool)
    → (check_reviews c reviews key ≡ ok tt) ↔ (
        ((is_conflicting c.binding_state ≡ false) ⊎ (key ≡ true))
        × All (λ r. is_allowed key r.reason_code ≡ true) reviews)
unfolding check_reviews
check_reviews_iff c reviews key = (
  λ h.
      let open_ways : any (λ (r : ReviewCase). not (is_allowed key r.reason_code)) reviews ≡ false =
        ground (arith, h) in
      (ground (arith, h, open_ways), none_blocked key reviews open_ways),
  λ h. ground (arith, h.0, allowed_passes key reviews h.1),
)

pub unknown_reasons :
    (key : Bool) (reviews : List ReviewCase)
    → key ≡ false
    → All (λ r. is_allowed key r.reason_code ≡ true) reviews
    → All IsUnknownOutcome reviews
unknown_reasons key reviews unproven fits =
    All-map (λ (r : ReviewCase). is_allowed key r.reason_code ≡ true) IsUnknownOutcome
      (λ r fit. elim (allowed_reason key r.reason_code fit) [
        | inl unknown ↦ unknown
        | inr (is_proven, _) ↦ cc (is_proven, unproven)
      ])
      reviews fits

pub unknown_allowed :
    (key : Bool) (reviews : List ReviewCase)
    → All IsUnknownOutcome reviews
    → All (λ r. is_allowed key r.reason_code ≡ true) reviews
unknown_allowed key reviews unknown =
    All-map IsUnknownOutcome (λ (r : ReviewCase). is_allowed key r.reason_code ≡ true)
      (λ r e. ap (is_allowed key) e) reviews unknown

pub known_reasons :
    (key : Bool) (reviews : List ReviewCase)
    → All (λ r. is_allowed key r.reason_code ≡ true) reviews
    → All (λ r. IsUnknownOutcome r ⊎ IsKeyMismatch r) reviews
known_reasons key reviews fits =
    All-map (λ (r : ReviewCase). is_allowed key r.reason_code ≡ true)
      (λ r. IsUnknownOutcome r ⊎ IsKeyMismatch r)
      (λ r fit. elim (allowed_reason key r.reason_code fit) [
        | inl unknown ↦ inl unknown
        | inr (_, mismatch) ↦ inr mismatch
      ])
      reviews fits

pub known_allowed :
    (key : Bool) (reviews : List ReviewCase)
    → key ≡ true
    → All (λ r. IsUnknownOutcome r ⊎ IsKeyMismatch r) reviews
    → All (λ r. is_allowed key r.reason_code ≡ true) reviews
known_allowed key reviews is_proven known =
    All-map (λ r. IsUnknownOutcome r ⊎ IsKeyMismatch r)
      (λ (r : ReviewCase). is_allowed key r.reason_code ≡ true)
      (λ r reason. elim reason [
        | inl unknown ↦ ap (is_allowed key) unknown
        | inr mismatch ↦ ap (is_allowed key) mismatch ∙ is_proven
      ])
      reviews known
