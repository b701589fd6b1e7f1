-- ===== src/Offers/Facts.antt =====
-- What `normalize_current_offer` of apps/api/app/integrations/lbx/current_offer.py asks of the
-- provider's objects before it decides, and what a fingerprint digests
-- (`current_offer_fingerprint` of apps/api/app/domains/catalog/product_link.py).
use payments_portal.Commerce.{
  ProductLinkRequest, CommercialMoney, CurrentOffer, Refused, PeriodUnit, required, PeriodAnchor,
  CommercialQuantity, refused_incomplete,
}
use payments_portal.Offers.Provider.{Tariff, TariffService, TariffPeriod}
use payments_portal.Base.Int.{ℤ, eq_ℤ, pos}
use payments_portal.Base.{
  ◌∷◌, [], ◌>>◌, ◌>>=◌, raise_if, Text, ℕ, Option, List, Bool, Result, false, ok, any, ◌||◌, err,
  ◌==◌, not, [], check, if◌then◌else◌,
}
use Prim.Native.String.{String}

-- What an offer's fingerprint digests: `current_offer_fingerprint`'s document, which leaves out when
-- the price ends and when it was observed.
pub record Material : Type 0 where
  pub scope : Text
  pub selection : ProductLinkRequest
  pub money : CommercialMoney
  pub unit : PeriodUnit
  pub length : ℕ
  pub anchor : PeriodAnchor
  pub price_effective_from : ℕ
  pub quantity : CommercialQuantity
  pub price_id : ℕ
  pub period_membership_id : ℕ
  pub defaults : ℕ
  pub prepaid : Bool
  pub full_funding_required : Bool
  pub block_to_close_days : ℕ

unfoldable pub material : Text → ProductLinkRequest → CurrentOffer → Material
material account selection offer = record {
  scope = account;
  selection = selection;
  money = offer.money;
  unit = offer.period.unit;
  length = offer.period.length;
  anchor = offer.period.anchor;
  price_effective_from = offer.period.price_effective_from;
  quantity = offer.quantity;
  price_id = offer.price_id;
  period_membership_id = offer.period_membership_id;
  defaults = offer.tariff_service_id;
  prepaid = offer.prepaid;
  full_funding_required = offer.full_funding_required;
  block_to_close_days = offer.block_to_close_days;
}

-- `LbxCurrencyMapping` of the settings, and the account
pub record Currency : Type 0 where
  pub provider_currency_id : ℕ
  pub iso_currency : Text
  pub scale : ℕ

pub record Configuration : Type 0 where
  pub currency_mapping : Option Currency
  pub account_id : Text

-- The one row with the identity; the identities of all the periods differ.
abbrev pub the_row : {A : Type 0} → List A → String → Result Refused A
the_row (r ∷ []) reason = ok r
the_row _ reason = err (refused_incomplete reason)

unfoldable pub repeats_id : List ℕ → Bool
repeats_id [] = false
repeats_id (i ∷ is) = any (λ j. j == i) is || repeats_id is

abbrev pub is_flag : ℤ → Bool
is_flag n = eq_ℤ n (pos 0) || eq_ℤ n (pos 1)

abbrev is_one : ℤ → Bool
is_one n = eq_ℤ n (pos 1)

-- The loop over the services: `seen` holds the identities before a row; the default components.
unfoldable pub default_components : ℕ → List ℕ → List TariffService → Result Refused (List ℕ)
default_components tariff_id seen [] = ok []
default_components tariff_id seen (row ∷ rows) = do
  raise_if (not (row.tariff_id == tariff_id) || any (λ i. i == row.tariff_service_id) seen)
      (refused_incomplete "component_membership_missing_or_ambiguous")
  enabled ← required row.enabled_by_default "component_enabled_by_default_unknown"
  check (is_flag enabled) (refused_incomplete "component_enabled_by_default_unknown")
  rest ← default_components tariff_id (row.tariff_service_id ∷ seen) rows
  ok (if is_one enabled then row.tariff_service_id ∷ rest else rest)

-- The required fields of the three objects, once they are there.
pub record TariffFacts : Type 0 where
  pub archive : ℤ
  pub balance_blocks : ℤ
  pub block_to_close_days : ℕ
  pub dynamic_rent : ℤ
  pub dynamic_rent_unblock_type : ℤ
  pub payment_type : ℤ
  pub float_period : ℤ
  pub assign_unavailable : ℤ
  pub proportional_rent : ℤ
  pub demo_period_length : ℕ
  pub currency_id : ℕ

unfoldable pub tariff_facts : Tariff → Result Refused TariffFacts
tariff_facts t = do
  archive ← required t.archive "archive_unknown"
  balance_blocks ← required t.balance_blocks "balance_blocks_unknown"
  block_to_close_days ← required t.block_to_close_days "block_to_close_days_unknown"
  dynamic_rent ← required t.dynamic_rent "dynamic_rent_unknown"
  dynamic_rent_unblock_type ←
      required t.dynamic_rent_unblock_type "dynamic_rent_unblock_type_unknown"
  payment_type ← required t.payment_type "payment_type_unknown"
  float_period ← required t.float_period "float_period_unknown"
  assign_unavailable ← required t.assign_unavailable "assign_unavailable_unknown"
  proportional_rent ← required t.proportional_rent "proportional_rent_unknown"
  demo_period_length ← required t.demo_period_length "demo_period_length_unknown"
  currency_id ← required t.currency_id "currency_id_unknown"
  ok (record {
    archive = archive;
    balance_blocks = balance_blocks;
    block_to_close_days = block_to_close_days;
    dynamic_rent = dynamic_rent;
    dynamic_rent_unblock_type = dynamic_rent_unblock_type;
    payment_type = payment_type;
    float_period = float_period;
    assign_unavailable = assign_unavailable;
    proportional_rent = proportional_rent;
    demo_period_length = demo_period_length;
    currency_id = currency_id;
  })

pub record ServiceFacts : Type 0 where
  pub bulk_service : Bool
  pub periodic_service : ℤ
  pub user_can_set_mul : ℤ
  pub user_available : ℤ
  pub archive : ℤ

unfoldable pub service_facts : TariffService → Result Refused ServiceFacts
service_facts s = do
  bulk_service ← required s.bulk_service "bulk_service_unknown"
  periodic_service ← required s.periodic_service "periodic_service_unknown"
  minimum ← required s.min_multiplicator "min_multiplicator_unknown"
  maximum ← required s.max_multiplicator "max_multiplicator_unknown"
  user_can_set_mul ← required s.user_can_set_mul "user_can_set_mul_unknown"
  user_available ← required s.user_available "user_available_unknown"
  archive ← required s.archive "archive_unknown"
  ok (record {
    bulk_service = bulk_service;
    periodic_service = periodic_service;
    user_can_set_mul = user_can_set_mul;
    user_available = user_available;
    archive = archive;
  })

pub record PeriodFacts : Type 0 where
  pub hidden : Bool
  pub period_type : ℤ
  pub period_length : ℕ

unfoldable pub period_facts : TariffPeriod → Result Refused PeriodFacts
period_facts p = do
  hidden ← required p.hidden "hidden_unknown"
  period_type ← required p.period_type "period_type_unknown"
  period_length ← required p.period_length "period_length_unknown"
  ok (record { hidden = hidden; period_type = period_type; period_length = period_length })
