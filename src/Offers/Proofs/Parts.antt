-- ===== src/Offers/Proofs/Parts.antt =====
-- The parts of a proof of a subscription: its required fields, its tests and its one service.
use payments_portal.Base.Int.{pos, negsuc, eq_ℤ→eq, ℤ, eq_ℤ}
use payments_portal.Commerce.{ProductLinkRequest, CurrentOffer, dec_eq, from_int, zero_decimal}
use payments_portal.Base.{
  ℕ, Text, ◌≡◌, ◌∷◌, some, ok, some_and, [], false, ◌↔◌, arith, Option-cases, any, inl, text_eq,
  true, inr, none, ◌⊎◌, List, refl, codes, map, Bool, ==_iff, Option, not, ◌∙◌, ◌&&◌, subst, ap,
  sym,
}
use payments_portal.Offers.Proofs.{
  SubscriptionService, prove_service, ℕ, ProductLinkRequest, service_fits, prove_connection, pos,
  no_amount, SubscriptionPoint, subscription_facts, unit_code, SubscriptionFacts, subscription_fits,
  among,
}

-- The declarative form of the tests on the one service.
pub record IsService (s : SubscriptionService) (selection : ProductLinkRequest)
    (offer : CurrentOffer) : Type 0 where
  pub selected : s.tariff_service_id ≡ selection.tariff_service_id
  pub times : some_and (λ d. dec_eq d (from_int (pos selection.quantity))) s.multiplicator ≡ true
  pub priced : some_and (λ d. dec_eq d offer.money.recurring_unit_amount) s.price ≡ true
  pub periodic : s.periodic_service ≡ some (pos 1)
  pub single : s.bulk_service ≡ some false
  pub no_bulk : (no_amount s.bulk_price ≡ true) × (no_amount s.bulk_include_amount ≡ true)
  pub connected :
      ((s.connection_price ≡ none) × (dec_eq offer.money.connection_amount zero_decimal ≡ true))
      ⊎ (some_and (λ d. dec_eq d offer.money.connection_unit_amount) s.connection_price ≡ true)

pub prove_service_iff :
    (s : SubscriptionService) (selection : ProductLinkRequest) (offer : CurrentOffer)
    → (prove_service (s ∷ []) selection offer ≡ ok tt) ↔ IsService s selection offer
unfolding prove_service service_fits prove_connection
prove_service_iff s selection offer = (
  (λ h. elim (Option-cases s.connection_price) [
    | inl none_given ↦ ground arith
    | inr (c, given) ↦ ground arith
  ]),
  (λ p. elim (Option-cases s.connection_price) [
    | inl none_given ↦ ground (arith, p)
    | inr (c, given) ↦ ground (arith, p)
  ]),
)

-- The declarative form of `prove_subscription`.
pub record IsSubscription (casefold : Text → Text) (p : SubscriptionPoint) (agreement_id : ℕ)
    (selection : ProductLinkRequest) (offer : CurrentOffer) : Type 0 where
  pub under : p.agreement_id ≡ agreement_id
  pub of_tariff : p.tariff_id ≡ selection.tariff_id
  pub of_period : p.period_id ≡ some selection.period_id
  pub of_type : p.period_type ≡ some (pos (unit_code offer.period.unit))
  pub of_length : p.period_length ≡ some (pos offer.period.length)
  pub in_state : some_and (λ n. among n (negsuc 1 ∷ negsuc 0 ∷ pos 0 ∷ pos 2 ∷ [])) p.state ≡ true
  pub in_blocking : some_and (λ n. among n (pos 0 ∷ pos 1 ∷ pos 3 ∷ [])) p.current_blocking ≡ true
  pub no_demo : p.is_demo ≡ some false
  pub no_offer : p.is_offer_agrm ≡ some false
  pub in_roubles :
      (text_eq offer.money.currency (codes "RUB") ≡ true)
      × (some_and
            (λ t. any (text_eq (casefold t)) (map codes ("rub" ∷ "руб" ∷ "₽" ∷ [])))
            p.currency_symbol
          ≡ true)
  pub costs : some_and (λ d. dec_eq d offer.money.recurring_amount) p.total_price ≡ true
  pub service : SubscriptionService
  pub one_service : p.services ≡ some (service ∷ [])
  pub is_service : IsService service selection offer

-- The required fields are there.
abbrev pub HasFacts : SubscriptionPoint → SubscriptionFacts → Type 0
HasFacts p f =
    (p.period_id ≡ some f.period_id)
    × (p.period_type ≡ some f.period_type)
    × (p.period_length ≡ some f.period_length)
    × (p.state ≡ some f.state)
    × (p.current_blocking ≡ some f.current_blocking)
    × (p.is_demo ≡ some f.is_demo)
    × (p.is_offer_agrm ≡ some f.is_offer_agrm)
    × (p.currency_symbol ≡ some f.currency_symbol)
    × (p.total_price ≡ some f.total_price)
    × (p.services ≡ some f.services)

pub subscription_facts-ok :
    (p : SubscriptionPoint) (f : SubscriptionFacts) → subscription_facts p ≡ ok f → HasFacts p f
unfolding subscription_facts
subscription_facts-ok p f h = ground (arith, h)

pub one_service :
    (services : List SubscriptionService) (selection : ProductLinkRequest) (offer : CurrentOffer)
    → prove_service services selection offer ≡ ok tt
    → (s : SubscriptionService) × (services ≡ s ∷ [])
      × (prove_service (s ∷ []) selection offer ≡ ok tt)
unfolding prove_service
one_service (s ∷ []) selection offer h = (s, refl, h)
one_service [] selection offer h = cc h
one_service (s ∷ (t ∷ rest)) selection offer h = cc h

pub all_hold :
    (a b c d e g h i j k l m : Bool)
    → (a && (b && c)) && ((d && e) && ((g && (h && (i && j))) && (k && (l && m)))) ≡ true
    → ((a ≡ true) × (b ≡ true) × (c ≡ true))
      × ((d ≡ true) × (e ≡ true))
      × ((g ≡ true) × (h ≡ true) × (i ≡ true) × (j ≡ true))
      × ((k ≡ true) × (l ≡ true) × (m ≡ true))
all_hold a b c d e g h i j k l m all_true = ground arith

pub held :
    {A : Type 0} (test : A → Bool) (o : Option A) (a : A)
    → o ≡ some a
    → test a ≡ true
    → some_and test o ≡ true
held test o a e h = subst (λ o. some_and test o ≡ true) (sym e) h

pub not-false : (b : Bool) → not b ≡ true → b ≡ false
not-false b h = ground arith

pub fits-IsSubscription :
    (casefold : Text → Text) (p : SubscriptionPoint) (f : SubscriptionFacts)
    (s : SubscriptionService) (agreement_id : ℕ) (selection : ProductLinkRequest)
    (offer : CurrentOffer)
    → HasFacts p f
    → f.services ≡ s ∷ []
    → subscription_fits casefold p f agreement_id selection offer ≡ true
    → IsService s selection offer
    → IsSubscription casefold p agreement_id selection offer
unfolding subscription_fits
fits-IsSubscription casefold p f s agreement_id selection offer facts one fits service =
    let (id, type, length, state, blocking, demo, agrm, symbol, price, services) = facts in
    let ((a, b, c), (d, e), (g, h, i, j), (k, l, m)) = all_hold _ _ _ _ _ _ _ _ _ _ _ _ fits in
    record {
      under = (==_iff _ _).0 a;
      of_tariff = (==_iff _ _).0 b;
      of_period = id ∙ ap (λ n. some n) ((==_iff _ _).0 c);
      of_type = type ∙ ap (λ n. some n) (eq_ℤ→eq _ _ d);
      of_length = length ∙ ap (λ n. some n) (eq_ℤ→eq _ _ e);
      in_state = held _ p.state f.state state g;
      in_blocking = held _ p.current_blocking f.current_blocking blocking h;
      no_demo = demo ∙ ap (λ n. some n) (not-false _ i);
      no_offer = agrm ∙ ap (λ n. some n) (not-false _ j);
      in_roubles = (k, held _ p.currency_symbol f.currency_symbol symbol l);
      costs = held _ p.total_price f.total_price price m;
      service = s;
      one_service = services ∙ ap (λ n. some n) one;
      is_service = service;
    }

pub facts_complete :
    (p : SubscriptionPoint) (f : SubscriptionFacts) → HasFacts p f → subscription_facts p ≡ ok f
unfolding subscription_facts
facts_complete p f facts = ground (arith, facts)

pub all_true :
    (a b c d e g h i j k l m : Bool)
    → ((a ≡ true) × (b ≡ true) × (c ≡ true))
      × ((d ≡ true) × (e ≡ true))
      × ((g ≡ true) × (h ≡ true) × (i ≡ true) × (j ≡ true))
      × ((k ≡ true) × (l ≡ true) × (m ≡ true))
    → (a && (b && c)) && ((d && e) && ((g && (h && (i && j))) && (k && (l && m)))) ≡ true
all_true a b c d e g h i j k l m every = ground (arith, every)

pub given :
    {A : Type 0} (test : A → Bool) (o : Option A)
    → some_and test o ≡ true
    → (a : A) × (o ≡ some a) × (test a ≡ true)
given test none h = cc
given test (some a) h = (a, refl, h)

pub eq_ℤ_refl : (n : ℤ) → eq_ℤ n n ≡ true
eq_ℤ_refl n = ground arith
