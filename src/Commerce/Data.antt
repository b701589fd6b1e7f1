-- ===== src/Commerce/Data.antt =====
-- The records of apps/api/app/domains/catalog/commercial_offer.py and product_link.py that an
-- accepted purchase keeps. Dates are ordinals of days, instants are seconds.
use payments_portal.Base.{ℕ, ◌++◌, Bool, Option, Text, codes, str}
use payments_portal.Base.Int.{ℤ}
use payments_portal.Commerce.Decimals.{Decimal}

pub record CommercialMoney : Type 0 where
  pub currency : Text
  pub decimal_places : ℕ
  pub recurring_unit_amount : Decimal
  pub connection_unit_amount : Decimal
  pub recurring_amount : Decimal
  pub connection_amount : Decimal

pub data PeriodUnit : Type 0 where
  day week month year : PeriodUnit

pub data PeriodAnchor : Type 0 where
  calendar_month instance_start first_instance_start : PeriodAnchor

pub record CommercialPeriod : Type 0 where
  pub unit : PeriodUnit
  pub length : ℕ
  pub anchor : PeriodAnchor
  pub price_effective_from : ℕ
  pub price_effective_until : Option ℕ

pub record CommercialQuantity : Type 0 where
  pub selected : Decimal
  pub minimum : ℤ
  pub maximum : ℤ

pub data CommercialEvidenceMode : Type 0 where
  configured_source simulated : CommercialEvidenceMode

pub record ProductLinkRequest : Type 0 where
  pub product_id : Text
  pub tariff_id : ℕ
  pub tariff_service_id : ℕ
  pub period_id : ℕ
  pub quantity : ℕ

-- `quote` leaves decimal digits as they are.
unfoldable pub billing_offer_id : ProductLinkRequest → Text
billing_offer_id r =
    codes "selected-offer:v1:"
    ++ (str r.tariff_id
        ++ (codes ":" ++ (str r.tariff_service_id ++ (codes ":" ++ str r.period_id))))

pub record CurrentOffer : Type 0 where
  pub money : CommercialMoney
  pub period : CommercialPeriod
  pub quantity : CommercialQuantity
  pub tariff_id : ℕ
  pub tariff_service_id : ℕ
  pub period_id : ℕ
  pub period_membership_id : ℕ
  pub price_id : ℕ
  pub prepaid : Bool
  pub full_funding_required : Bool
  pub block_to_close_days : ℕ
  pub evidence_mode : CommercialEvidenceMode
  pub observed_at : ℕ
  pub fingerprint : Text
