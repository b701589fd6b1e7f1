-- ===== src/Offers/Proofs.antt =====
-- `prove_agreement` and `prove_subscription` of apps/api/app/integrations/lbx/financial.py: whether a
-- point read of a created object is the object that the accepted offer asked for. The case folding
-- of a currency symbol is an argument.
pub mod Parts
pub mod Exactly
use payments_portal.Base.Int.{ℤ, eq_ℤ, pos, negsuc}
use payments_portal.Commerce.{
  PeriodUnit, ProductLinkRequest, Decimal, CurrentOffer, CommercialMoney, dec_eq, zero_decimal,
  from_int,
}
use payments_portal.Base.{
  ◌∷◌, [], ◌>>◌, ◌>>=◌, check, ℕ, Option, List, Result, Text, Bool, or_raise, map, ◌==◌, ok, codes,
  ◌&&◌, any, none_or, err, text_eq, not, some, none,
}

-- `LbxResponseInvalid` and `LbxScopeMismatch`
pub data ProofFailure : Type 0 where
  response_invalid scope_mismatch : ProofFailure

pub record AgreementPoint : Type 0 where
  pub agreement_id : ℕ
  pub user_id : ℕ
  pub organization_id : Option ℕ
  pub agreement_number : Option Text
  pub is_offer : Option Bool
  pub close_date : Option Text

pub record SubscriptionService : Type 0 where
  pub tariff_service_id : ℕ
  pub multiplicator : Option Decimal
  pub price : Option Decimal
  pub connection_price : Option Decimal
  pub bulk_price : Option Decimal
  pub bulk_include_amount : Option Decimal
  pub periodic_service : Option ℤ
  pub bulk_service : Option Bool

pub record SubscriptionPoint : Type 0 where
  pub subscription_id : ℕ
  pub agreement_id : ℕ
  pub tariff_id : ℕ
  pub period_id : Option ℕ
  pub period_type : Option ℤ
  pub period_length : Option ℤ
  pub state : Option ℤ
  pub current_blocking : Option ℤ
  pub is_demo : Option Bool
  pub is_offer_agrm : Option Bool
  pub currency_symbol : Option Text
  pub total_price : Option Decimal
  pub services : Option (List SubscriptionService)

abbrev pub needed : {A : Type 0} → Option A → Result ProofFailure A
needed value = or_raise value response_invalid

-- The texts by which the provider says that an agreement has no end.
unfoldable pub open_dates : List Text
open_dates =
    map codes
      ("" ∷ "0000-00-00" ∷ "0000-00-00 00:00:00" ∷ "1970-01-01" ∷ "1970-01-01 00:00:00" ∷ [])

unfoldable pub prove_agreement : AgreementPoint → ℕ → ℕ → Text → Result ProofFailure (Unit {0})
prove_agreement point user_id seller_id number = do
  organization ← needed point.organization_id
  agreement_number ← needed point.agreement_number
  is_offer ← needed point.is_offer
  check
      ((point.user_id == user_id)
        && ((organization == seller_id) && (text_eq agreement_number number && not is_offer)))
      scope_mismatch
  check (none_or (λ d. any (text_eq d) open_dates) point.close_date) scope_mismatch

-- `{"day": 1, "week": 2, "month": 3, "year": 4}[offer.period.unit]`
abbrev pub unit_code : PeriodUnit → ℕ
unit_code PeriodUnit.day = 1
unit_code PeriodUnit.week = 2
unit_code PeriodUnit.month = 3
unit_code PeriodUnit.year = 4

abbrev pub among : ℤ → List ℤ → Bool
among n known = any (eq_ℤ n) known

-- The ten required fields, in the code's order.
pub record SubscriptionFacts : Type 0 where
  pub period_id : ℕ
  pub period_type : ℤ
  pub period_length : ℤ
  pub state : ℤ
  pub current_blocking : ℤ
  pub is_demo : Bool
  pub is_offer_agrm : Bool
  pub currency_symbol : Text
  pub total_price : Decimal
  pub services : List SubscriptionService

unfoldable pub subscription_facts : SubscriptionPoint → Result ProofFailure SubscriptionFacts
subscription_facts p = do
  period_id ← needed p.period_id
  period_type ← needed p.period_type
  period_length ← needed p.period_length
  state ← needed p.state
  current_blocking ← needed p.current_blocking
  is_demo ← needed p.is_demo
  is_offer_agrm ← needed p.is_offer_agrm
  currency_symbol ← needed p.currency_symbol
  total_price ← needed p.total_price
  services ← needed p.services
  ok (record {
    period_id = period_id;
    period_type = period_type;
    period_length = period_length;
    state = state;
    current_blocking = current_blocking;
    is_demo = is_demo;
    is_offer_agrm = is_offer_agrm;
    currency_symbol = currency_symbol;
    total_price = total_price;
    services = services;
  })

-- None, or zero.
abbrev pub no_amount : Option Decimal → Bool
no_amount amount = none_or (λ d. dec_eq d zero_decimal) amount

-- The tests on the one service, once its four required fields are there.
unfoldable pub service_fits :
    SubscriptionService → ProductLinkRequest → CurrentOffer → Decimal → Decimal → ℤ → Bool → Bool
service_fits s selection offer multiplicator price periodic bulk =
    ((s.tariff_service_id == selection.tariff_service_id)
      && (dec_eq multiplicator (from_int (pos selection.quantity))
          && dec_eq price offer.money.recurring_unit_amount))
    && ((no_amount s.bulk_price && no_amount s.bulk_include_amount)
        && (eq_ℤ periodic (pos 1) && not bulk))

-- A connection charge needs explicit evidence.
unfoldable pub prove_connection : Option Decimal → CommercialMoney → Result ProofFailure (Unit {0})
prove_connection none money = check (dec_eq money.connection_amount zero_decimal) response_invalid
prove_connection (some price) money =
    check (dec_eq price money.connection_unit_amount) scope_mismatch

unfoldable pub prove_service :
    List SubscriptionService → ProductLinkRequest → CurrentOffer → Result ProofFailure (Unit {0})
prove_service (s ∷ []) selection offer = do
  multiplicator ← needed s.multiplicator
  price ← needed s.price
  periodic ← needed s.periodic_service
  bulk ← needed s.bulk_service
  check (service_fits s selection offer multiplicator price periodic bulk) scope_mismatch
  prove_connection s.connection_price offer.money
prove_service _ selection offer = err scope_mismatch

-- The tests on the subscription itself.
unfoldable pub subscription_fits :
    (Text → Text)
    → SubscriptionPoint
    → SubscriptionFacts
    → ℕ
    → ProductLinkRequest
    → CurrentOffer
    → Bool
subscription_fits casefold p f agreement_id selection offer =
    ((p.agreement_id == agreement_id)
      && ((p.tariff_id == selection.tariff_id) && (f.period_id == selection.period_id)))
    && ((eq_ℤ f.period_type (pos (unit_code offer.period.unit))
          && eq_ℤ f.period_length (pos offer.period.length))
        && ((among f.state (negsuc 1 ∷ negsuc 0 ∷ pos 0 ∷ pos 2 ∷ [])
              && (among f.current_blocking (pos 0 ∷ pos 1 ∷ pos 3 ∷ [])
                  && (not f.is_demo && not f.is_offer_agrm)))
            && (text_eq offer.money.currency (codes "RUB")
                && (any (text_eq (casefold f.currency_symbol))
                      (map codes ("rub" ∷ "руб" ∷ "₽" ∷ []))
                    && dec_eq f.total_price offer.money.recurring_amount))))

-- The four refusals before the services are one: each raises `LbxScopeMismatch`.
unfoldable pub prove_subscription :
    (Text → Text)
    → SubscriptionPoint
    → ℕ
    → ProductLinkRequest
    → CurrentOffer
    → Result ProofFailure (Unit {0})
prove_subscription casefold p agreement_id selection offer = do
  f ← subscription_facts p
  check (subscription_fits casefold p f agreement_id selection offer) scope_mismatch
  prove_service f.services selection offer
