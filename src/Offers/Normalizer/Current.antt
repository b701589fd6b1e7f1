-- ===== src/Offers/Normalizer/Current.antt =====
-- The offer of `normalize_current_offer`, once its facts are selected, and `read_current_offer`.
use payments_portal.Base.Int.{ℤ, pos}
use payments_portal.Commerce.{
  Refused, ProductLinkRequest, PeriodUnit, CurrentOffer, required, CommercialMoney, PeriodAnchor,
  multiply, refused_incomplete, from_int, dec_eq, minor_units, zero_decimal, configured_source,
  quantity_bounds,
}
use payments_portal.Offers.Provider.{ReadSet}
use payments_portal.Offers.Facts.{Configuration, Currency, Material, TariffFacts, material}
use Prim.Native.String.{String}
use payments_portal.Base.{
  [], ◌>>◌, ◌>>=◌, raise_if, check, Text, Result, ℕ, err, text_eq, not, ok, ◌==◌, ◌&&◌, true,
}
use payments_portal.Offers.Normalizer.{
  Selected, Effective, selected_rows, effective_price, period_unit, period_anchor, supported,
  unsupported, ReadSet, Refused, ℤ,
}

-- The currency of the tariff is the configured one.
unfoldable pub offer_currency : Configuration → TariffFacts → Result Refused Currency
offer_currency configuration t = do
  currency ← required configuration.currency_mapping "currency_interpretation_unsupported"
  check (t.currency_id == currency.provider_currency_id)
      (refused_incomplete "currency_interpretation_unsupported")
  ok currency

-- The amounts of an offer, each of which has minor units.
unfoldable pub offer_money :
    Currency → ProductLinkRequest → Effective → Result Refused CommercialMoney
offer_money currency selection e = do
  total ← multiply e.recurring (from_int (pos selection.quantity))
  recurring_units ← minor_units e.recurring currency.scale
  connection_units ← minor_units e.connection currency.scale
  total_units ← minor_units total currency.scale
  ok (record {
    currency = currency.iso_currency;
    decimal_places = currency.scale;
    recurring_unit_amount = e.recurring;
    connection_unit_amount = e.connection;
    recurring_amount = total;
    connection_amount = e.connection;
  })

-- The offer before its fingerprint is put in.
abbrev pub unsigned_offer :
    ReadSet
    → ProductLinkRequest
    → Selected
    → Effective
    → PeriodUnit
    → PeriodAnchor
    → CommercialMoney
    → ℤ
    → ℤ
    → CurrentOffer
unsigned_offer reads selection s e unit anchor money minimum maximum = record {
  money = money;
  period = record {
    unit = unit;
    length = s.period_fact.period_length;
    anchor = anchor;
    price_effective_from = e.start;
    price_effective_until = e.until;
  };
  quantity = record {
    selected = from_int (pos selection.quantity);
    minimum = minimum;
    maximum = maximum;
  };
  tariff_id = selection.tariff_id;
  tariff_service_id = selection.tariff_service_id;
  period_id = selection.period_id;
  period_membership_id = s.period.tariff_period_id;
  price_id = e.row.price_id;
  prepaid = true;
  full_funding_required = true;
  block_to_close_days = s.tariff_fact.block_to_close_days;
  evidence_mode = configured_source;
  observed_at = reads.observed_at;
  fingerprint = [];
}

-- `SelectedOfferRefused`, or `SelectedOfferSourceFailed` with its code.
pub data Failed : Type 0 where
  offer_refused : Refused → Failed
  source_failed : String → Failed

module _ (digest : Material → Text) where
  unfoldable pub current_offer_fingerprint : Text → ProductLinkRequest → CurrentOffer → Text
  current_offer_fingerprint account selection offer = digest (material account selection offer)

  abbrev pub signed_offer : Text → ProductLinkRequest → CurrentOffer → CurrentOffer
  signed_offer account selection offer = record offer {
    fingerprint = current_offer_fingerprint account selection offer;
  }

  -- The decision and the offer, after the price is known.
  unfoldable pub priced_offer :
      ReadSet
      → ProductLinkRequest
      → Configuration
      → Selected
      → Effective
      → Currency
      → PeriodUnit
      → PeriodAnchor
      → Result Refused CurrentOffer
  priced_offer reads selection configuration s e currency unit anchor = do
    raise_if (not (selection.quantity == 1) && not (dec_eq e.connection zero_decimal))
        (refused_incomplete "connection_quantity_basis_unproven")
    (minimum, maximum) ← quantity_bounds s.service.min_multiplicator s.service.max_multiplicator
    supported (unsupported selection s e minimum maximum)
    money ← offer_money currency selection e
    ok (
        signed_offer configuration.account_id selection
          (unsigned_offer reads selection s e unit anchor money minimum maximum))

  -- `normalize_current_offer`
  unfoldable pub normalize_current_offer :
      ReadSet → ProductLinkRequest → Configuration → ℕ → Result Refused CurrentOffer
  normalize_current_offer reads selection configuration effective_on = do
    s ← selected_rows reads selection
    unit ← period_unit s.period_fact.period_type
    anchor ← period_anchor s.tariff_fact.float_period
    currency ← offer_currency configuration s.tariff_fact
    e ← effective_price reads s.period s.service effective_on
    priced_offer reads selection configuration s e currency unit anchor

  -- `read_current_offer`: a failed call of the provider, a refusal, or the second of two offers with
  -- one fingerprint. A reading is the provider's error code or its objects.
  abbrev pub normalized :
      Result String ReadSet → ProductLinkRequest → Configuration → ℕ → Result Failed CurrentOffer
  normalized (err code) selection configuration effective_on = err (source_failed code)
  normalized (ok reads) selection configuration effective_on =
      elim (normalize_current_offer reads selection configuration effective_on) [
        | ok offer ↦ ok offer
        | err r ↦ err (offer_refused r)
      ]

  unfoldable pub read_current_offer :
      Result String ReadSet
      → Result String ReadSet
      → ProductLinkRequest
      → Configuration
      → ℕ
      → Result Failed CurrentOffer
  read_current_offer first_read second_read selection configuration effective_on = do
    first ← normalized first_read selection configuration effective_on
    second ← normalized second_read selection configuration effective_on
    check (text_eq first.fingerprint second.fingerprint) (source_failed "selected_source_changed")
    ok second
