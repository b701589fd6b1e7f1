-- ===== src/Offers/Samples.antt =====
-- One tariff with one service, one period and two prices, and the configured currency.
use payments_portal.Offers.Proofs.{
  AgreementPoint, SubscriptionPoint, prove_agreement, open_dates, prove_subscription,
  subscription_facts, subscription_fits, prove_service, service_fits, prove_connection,
}
use payments_portal.Offers.Discounts.{
  selected_discounts, legacy_discounts, repeats_discount, sort_discounts, insert_discount,
  discounts_eq, discount_eq,
}
use payments_portal.Offers.Prices.{applicable_price, dated, schedule_fits, earliest, latest}
use payments_portal.Base.Int.{pos, negsuc, ◌+ℤ◌, ◌-ℤ◌}
use payments_portal.Offers.Normalizer.{
  selected_rows, period_unit, period_anchor, effective_price, flags_known, supported, unsupported,
  agreed_price, effective_amounts,
}
use payments_portal.Offers.Normalizer.Current.{
  normalize_current_offer, offer_currency, priced_offer, offer_money, current_offer_fingerprint,
  read_current_offer,
}
use payments_portal.Offers.Facts.{
  Configuration, Material, repeats_id, default_components, tariff_facts, service_facts,
  period_facts, material,
}
use payments_portal.Base.{
  ℕ, List, some, Option, ◌∷◌, Text, codes, ◌≡◌, false, none, [], ok, true, text_eq, str, int, refl,
}
use payments_portal.Offers.Provider.{
  TariffPeriod, ReadSet, InlinePrice, ServicePrice, supplied, absent,
}
use payments_portal.Commerce.{
  Decimal, ProductLinkRequest, CurrentOffer, finite, zero_decimal, PeriodUnit, PeriodAnchor,
  configured_source, dec_eq, dec_lt, dec_le, scaled, exact_value, exact, is_oversized,
  quantity_bounds, multiply, minor_units, units_of, shifted_units, is_integral, to_int,
}

abbrev ten : Decimal
ten = finite false 1000 (negsuc 1)

abbrev pub a_period : TariffPeriod
a_period = record {
  tariff_period_id = 40;
  period_id = 3;
  hidden = some false;
  period_type = some (pos 3);
  period_length = some 1;
}

abbrev pub price_from : ℕ → ℕ → Option ℕ → ServicePrice
price_from id start next = record {
  price_id = id;
  period_id = 3;
  start_date = some start;
  connection_price = some zero_decimal;
  bulk_price = some zero_decimal;
  price = some ten;
  bulk_include_amount = some 0;
  period_type = some (pos 3);
  period_length = some 1;
  next_change_date = next;
}

abbrev inline_from : ℕ → InlinePrice
inline_from start = record {
  period_id = 3;
  price = some ten;
  bulk_price = some zero_decimal;
  connection_price = some zero_decimal;
  price_start_date = some start;
  bulk_include_amount = some 0;
  discounts = supplied [];
}

abbrev pub prices : List ServicePrice
prices = price_from 51 200 none ∷ price_from 50 100 (some 200) ∷ []

abbrev pub reads : ReadSet
reads = record {
  tariff = record {
    tariff_id = 1;
    archive = some (pos 0);
    currency_id = some 7;
    balance_blocks = some (pos 1);
    block_to_close_days = some 5;
    dynamic_rent = some (pos 0);
    dynamic_rent_unblock_type = some (pos 0);
    payment_type = some (pos 0);
    float_period = some (pos 0);
    assign_unavailable = some (pos 0);
    proportional_rent = some (pos 0);
    demo_period_length = some 0;
  };
  periods = a_period ∷ [];
  services =
      record {
        tariff_id = 1;
        tariff_service_id = 2;
        bulk_service = some false;
        enabled_by_default = some (pos 1);
        min_multiplicator = some (finite false 10 (negsuc 0));
        max_multiplicator = some (finite false 5 (pos 0));
        periodic_service = some (pos 1);
        user_can_set_mul = some (pos 0);
        user_available = some (pos 0);
        archive = some (pos 0);
        prices = some (inline_from 100 ∷ inline_from 200 ∷ []);
        discounts = absent;
      }
      ∷ [];
  prices = prices;
  observed_at = 900;
}

abbrev pub the_selection : ProductLinkRequest
the_selection = record {
  product_id = 80 ∷ [];
  tariff_id = 1;
  tariff_service_id = 2;
  period_id = 3;
  quantity = 3;
}

abbrev pub configuration : Configuration
configuration = record {
  currency_mapping =
      some (record { provider_currency_id = 7; iso_currency = codes "RUB"; scale = 2 });
  account_id = 9 ∷ [];
}

-- Any digest serves.
abbrev pub digest : Material → Text
digest m = m.price_id ∷ []

-- The offer on day 150.
abbrev pub sold : CurrentOffer
sold = record {
  money = record {
    currency = codes "RUB";
    decimal_places = 2;
    recurring_unit_amount = ten;
    connection_unit_amount = zero_decimal;
    recurring_amount = finite false 3000 (negsuc 1);
    connection_amount = zero_decimal;
  };
  period = record {
    unit = PeriodUnit.month;
    length = 1;
    anchor = PeriodAnchor.calendar_month;
    price_effective_from = 100;
    price_effective_until = some 200;
  };
  quantity = record { selected = finite false 3 (pos 0); minimum = pos 1; maximum = pos 5 };
  tariff_id = 1;
  tariff_service_id = 2;
  period_id = 3;
  period_membership_id = 40;
  price_id = 50;
  prepaid = true;
  full_funding_required = true;
  block_to_close_days = 5;
  evidence_mode = configured_source;
  observed_at = 900;
  fingerprint = 50 ∷ [];
}

unfoldable pub pricing : Unit {0}
unfolding normalize_current_offer selected_rows repeats_id period_unit default_components
    period_anchor tariff_facts offer_currency service_facts effective_price agreed_price
    effective_amounts period_facts applicable_price flags_known dated schedule_fits dec_eq dec_lt
    dec_le scaled selected_discounts priced_offer earliest latest legacy_discounts exact_value exact
    is_oversized quantity_bounds supported unsupported offer_money multiply minor_units units_of
    shifted_units is_integral to_int current_offer_fingerprint material text_eq str int ◌+ℤ◌ ◌-ℤ◌
    prove_agreement open_dates prove_subscription subscription_facts subscription_fits prove_service
    service_fits prove_connection repeats_discount sort_discounts insert_discount discounts_eq
    discount_eq read_current_offer
pricing = tt

pub sold-normal : normalize_current_offer digest reads the_selection configuration 150 ≡ ok sold
unfolding pricing
sold-normal = refl

abbrev pub agreement_point : AgreementPoint
agreement_point = record {
  agreement_id = 60;
  user_id = 49;
  organization_id = some 6;
  agreement_number = some (codes "portal-1");
  is_offer = some false;
  close_date = some (codes "0000-00-00");
}

abbrev pub subscription_point : SubscriptionPoint
subscription_point = record {
  subscription_id = 70;
  agreement_id = 60;
  tariff_id = 1;
  period_id = some 3;
  period_type = some (pos 3);
  period_length = some (pos 1);
  state = some (negsuc 0);
  current_blocking = some (pos 1);
  is_demo = some false;
  is_offer_agrm = some false;
  currency_symbol = some (codes "rub");
  total_price = some (finite false 30 (pos 0));
  services = some (
      record {
        tariff_service_id = 2;
        multiplicator = some (finite false 3 (pos 0));
        price = some (finite false 10 (pos 0));
        connection_price = none;
        bulk_price = none;
        bulk_include_amount = some zero_decimal;
        periodic_service = some (pos 1);
        bulk_service = some false;
      }
      ∷ []);
}
