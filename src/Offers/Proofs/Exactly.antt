-- ===== src/Offers/Proofs/Exactly.antt =====
-- What passes for proof of a created agreement and of a created subscription, and nothing else does.
use payments_portal.Offers.Proofs.Parts.{
  IsSubscription, one_service, given, fits-IsSubscription, HasFacts, subscription_facts-ok,
  all_true, prove_service_iff, eq_ℤ_refl, facts_complete,
}
use payments_portal.Base.Int.{pos}
use payments_portal.Commerce.{ProductLinkRequest, CurrentOffer}
use payments_portal.Base.{
  ℕ, Text, ◌≡◌, ◌∷◌, some, ok, [], false, >>=-eq-ok, ◌↔◌, none_or, arith, any, text_eq→eq,
  text_eq_refl, text_eq, true, refl, check, ==_iff, ◌>>=◌,
}
use payments_portal.Offers.Proofs.{
  AgreementPoint, prove_agreement, ℕ, ProductLinkRequest, needed, pos, open_dates,
  SubscriptionPoint, subscription_facts, prove_subscription, unit_code, SubscriptionFacts,
  subscription_fits, scope_mismatch,
}

-- The declarative form of `prove_agreement`.
pub record IsAgreement (point : AgreementPoint) (user_id seller_id : ℕ) (number : Text)
    : Type 0 where
  pub user : point.user_id ≡ user_id
  pub seller : point.organization_id ≡ some seller_id
  pub named : point.agreement_number ≡ some number
  pub created : point.is_offer ≡ some false
  pub endless : none_or (λ d. any (text_eq d) open_dates) point.close_date ≡ true

prove_agreement_sound :
    (point : AgreementPoint) (user_id seller_id : ℕ) (number : Text)
    → prove_agreement point user_id seller_id number ≡ ok tt
    → IsAgreement point user_id seller_id number
unfolding prove_agreement
prove_agreement_sound point user_id seller_id number h =
    let (organization, is_organization, h1) = >>=-eq-ok (needed point.organization_id) _ h in
    let (found, is_found, h2) = >>=-eq-ok (needed point.agreement_number) _ h1 in
    let same_number = text_eq→eq found number in ground (arith, same_number, h2)

-- A point read proves an agreement exactly where it is the user's, with the seller, under the number
-- that the request gave it, not an offer, and with none of the dates that end it.
pub prove_agreement_iff :
    (point : AgreementPoint) (user_id seller_id : ℕ) (number : Text)
    → (prove_agreement point user_id seller_id number ≡ ok tt)
      ↔ IsAgreement point user_id seller_id number
unfolding prove_agreement
prove_agreement_iff point user_id seller_id number = (
  prove_agreement_sound point user_id seller_id number,
  (λ p. ground (arith, text_eq_refl number)),
)

prove_subscription_sound :
    (casefold : Text → Text) (p : SubscriptionPoint) (agreement_id : ℕ)
    (selection : ProductLinkRequest) (offer : CurrentOffer)
    → prove_subscription casefold p agreement_id selection offer ≡ ok tt
    → IsSubscription casefold p agreement_id selection offer
unfolding prove_subscription
prove_subscription_sound casefold p agreement_id selection offer h =
    let (f, is_f, h1) = >>=-eq-ok (subscription_facts p) _ h in
    let fit = subscription_fits casefold p f agreement_id selection offer in
    let (_, passed, h2) = >>=-eq-ok (check fit scope_mismatch) _ h1 in
    let (s, one, proven) = one_service f.services selection offer h2 in
    let fits : fit ≡ true = ground (arith, passed) in
    fits-IsSubscription casefold p f s agreement_id selection offer (subscription_facts-ok p f is_f)
      one fits ((prove_service_iff s selection offer).0 proven)

prove_subscription_complete :
    (casefold : Text → Text) (p : SubscriptionPoint) (agreement_id : ℕ)
    (selection : ProductLinkRequest) (offer : CurrentOffer)
    → IsSubscription casefold p agreement_id selection offer
    → prove_subscription casefold p agreement_id selection offer ≡ ok tt
unfolding prove_subscription subscription_fits
prove_subscription_complete casefold p agreement_id selection offer is =
    let (state, is_state, g) = given _ p.state is.in_state in
    let (blocking, is_blocking, h) = given _ p.current_blocking is.in_blocking in
    let (symbol, is_symbol, l) = given _ p.currency_symbol is.in_roubles.1 in
    let (price, is_price, m) = given _ p.total_price is.costs in
    let f : SubscriptionFacts = record {
      period_id = selection.period_id;
      period_type = pos (unit_code offer.period.unit);
      period_length = pos offer.period.length;
      state = state;
      current_blocking = blocking;
      is_demo = false;
      is_offer_agrm = false;
      currency_symbol = symbol;
      total_price = price;
      services = is.service ∷ [];
    } in
    let facts : HasFacts p f = (
      is.of_period, is.of_type, is.of_length, is_state, is_blocking, is.no_demo, is.no_offer,
      is_symbol, is_price, is.one_service,
    ) in
    let fits : subscription_fits casefold p f agreement_id selection offer ≡ true =
      all_true _ _ _ _ _ _ _ _ _ _ _ _ (
        ((==_iff _ _).1 is.under, (==_iff _ _).1 is.of_tariff, (==_iff _ _).1 refl),
        (eq_ℤ_refl (pos (unit_code offer.period.unit)), eq_ℤ_refl (pos offer.period.length)),
        (g, h, refl, refl),
        (is.in_roubles.0, l, m),
      ) in
    rw (facts_complete p f facts, ◌>>=◌)
      (rw (fits, ◌>>=◌) ((prove_service_iff is.service selection offer).1 is.is_service))

-- A point read proves a subscription exactly where it is under the agreement, of the selected tariff
-- and period, in a state that the portal knows, no demo and no offer, costs the accepted total in
-- roubles, and has one service, which is the selected one at the accepted prices.
pub prove_subscription_iff :
    (casefold : Text → Text) (p : SubscriptionPoint) (agreement_id : ℕ)
    (selection : ProductLinkRequest) (offer : CurrentOffer)
    → (prove_subscription casefold p agreement_id selection offer ≡ ok tt)
      ↔ IsSubscription casefold p agreement_id selection offer
prove_subscription_iff casefold p agreement_id selection offer = (
  prove_subscription_sound casefold p agreement_id selection offer,
  prove_subscription_complete casefold p agreement_id selection offer,
)
