-- ===== src/Offers/Normalizer/Sells.antt =====
-- What an offer that the normalizer gives proves of the provider's objects.
use payments_portal.Offers.Normalizer.Steps.{
  normal_run, offer_money-IsPriced, unsupported-false, selected_rows-period, offer_currency-mapped,
  one_connection,
}
use payments_portal.Offers.Normalizer.Amounts.{effective_price-Applies}
use payments_portal.Base.Int.{ℤ, ◌≤ℤ◌, pos}
use payments_portal.Offers.Normalizer.Current.{
  normalize_current_offer, current_offer_fingerprint, Failed, normalized, read_current_offer,
  source_failed,
}
use payments_portal.Offers.Prices.{service_listing}
use payments_portal.Offers.Prices.Interval.{Applies}
use payments_portal.Offers.Facts.{Material, Currency, Configuration, material}
use payments_portal.Commerce.{
  ProductLinkRequest, Decimal, exact_value, multiply, from_int, CurrentOffer, minor_units, dec_le,
  zero_decimal, dec_eq, refused_incomplete, dec_lt,
}
use payments_portal.Offers.Provider.{ReadSet, ServicePrice}
use payments_portal.Offers.Normalizer.{
  ReadSet, String, ProductLinkRequest, service_listing, ℤ, ServicePrice,
}
use payments_portal.Base.{
  check, >>=-eq-ok, ◌≡◌, ok, true, false, arith, Result, subst, ap, err, ◌∙◌, ℕ, some, sym, Text,
  ◌⊎◌, refl, Result-cases, text_eq, inl, inr, text_eq→eq,
}

-- What an offer promises: its price row holds on the date, for the selected period; its unit price
-- is the exact value of the row's price and its connection price that of the row's connection
-- price, once for the whole quantity; its total is exactly the unit price times the quantity, which
-- lies in the service's bounds; unit price, connection price and total have minor units of the
-- currency; a connection price comes with one unit only; and the fingerprint is the digest of these
-- terms.
pub record Sells (digest : Material → Text) (reads : ReadSet) (selection : ProductLinkRequest)
    (configuration : Configuration) (date : ℕ) (offer : CurrentOffer) : Type 0 where
  pub row : ServicePrice
  pub applies :
      Applies service_listing reads.prices selection.period_id date row
        offer.period.price_effective_until
  pub is_priced_by : row.price_id ≡ offer.price_id
  pub starts : row.start_date ≡ some offer.period.price_effective_from
  pub unit_price :
      (price : Decimal) × (row.price ≡ some price)
      × (exact_value price "recurring_price_invalid" ≡ ok offer.money.recurring_unit_amount)
  pub connection_price :
      (price : Decimal) × (row.connection_price ≡ some price)
      × (exact_value price "connection_price_invalid" ≡ ok offer.money.connection_unit_amount)
  pub connects_once : offer.money.connection_amount ≡ offer.money.connection_unit_amount
  pub total :
      multiply offer.money.recurring_unit_amount (from_int (pos selection.quantity))
      ≡ ok offer.money.recurring_amount
  pub units :
      (currency : Currency) × (configuration.currency_mapping ≡ some currency)
      × (u : ℤ) × (v : ℤ) × (minor_units offer.money.recurring_unit_amount currency.scale ≡ ok u)
      × (minor_units offer.money.recurring_amount currency.scale ≡ ok v)
  pub connection_units :
      (currency : Currency) × (configuration.currency_mapping ≡ some currency)
      × (u : ℤ) × (minor_units offer.money.connection_unit_amount currency.scale ≡ ok u)
  pub is_not_negative : dec_lt offer.money.connection_unit_amount zero_decimal ≡ false
  pub is_positive : dec_le offer.money.recurring_unit_amount zero_decimal ≡ false
  pub connects_one :
      (selection.quantity ≡ 1) ⊎ (dec_eq offer.money.connection_unit_amount zero_decimal ≡ true)
  pub in_bounds :
      (offer.quantity.minimum ≤ℤ pos selection.quantity)
      × (pos selection.quantity ≤ℤ offer.quantity.maximum)
  pub fingerprinted : offer.fingerprint ≡ digest (material configuration.account_id selection offer)

-- An offer that `normalize_current_offer` gives has a price row of the selected period that holds
-- on the date; its unit price and its connection price are the exact values of that row's price and
-- connection price; its unit price is positive, its connection price is not negative, and both have
-- minor units of the configured currency, and so has its total, which is the product of the unit
-- price and the quantity; the quantity lies in the offer's bounds, and is one where there is a
-- connection price; the fingerprint is the digest of the offer's terms.
pub normalize_current_offer-Sells :
    (digest : Material → Text) (reads : ReadSet) (selection : ProductLinkRequest)
    (configuration : Configuration) (date : ℕ) {offer : CurrentOffer}
    → normalize_current_offer digest reads selection configuration date ≡ ok offer
    → Sells digest reads selection configuration date offer
unfolding material current_offer_fingerprint
normalize_current_offer-Sells digest reads selection configuration date {offer} h =
    let run = normal_run digest reads selection configuration date h in
    let (applies, starts, agreed) =
      effective_price-Applies reads run.s.period run.s.service date run.is_effective in
    let priced = offer_money-IsPriced run.currency selection run.e run.is_money in
    let (bounds, positive, not_negative) =
      unsupported-false selection run.s run.e run.minimum run.maximum run.is_supported in
    subst (Sells digest reads selection configuration date) run.result (record {
      row = run.e.row;
      applies =
          subst (λ id. Applies service_listing reads.prices id date run.e.row run.e.until)
            (selected_rows-period reads selection run.is_selected) applies;
      is_priced_by = refl;
      starts = starts;
      unit_price =
          (agreed.price.0, agreed.price.1, agreed.price.2 ∙ ap (λ a. ok a) (sym priced.unit));
      connection_price = (
        agreed.connection.0,
        agreed.connection.1,
        agreed.connection.2 ∙ ap (λ a. ok a) (sym priced.connected),
      );
      connects_once = priced.once;
      total = ap (λ a. multiply a (from_int (pos selection.quantity))) priced.unit ∙ priced.total;
      units = (
        run.currency,
        offer_currency-mapped configuration run.s.tariff_fact run.is_currency,
        priced.units.0,
        priced.total_units.0,
        ap (λ a. minor_units a run.currency.scale) priced.unit ∙ priced.units.1,
        priced.total_units.1,
      );
      connection_units = (
        run.currency,
        offer_currency-mapped configuration run.s.tariff_fact run.is_currency,
        priced.connection_units.0,
        ap (λ a. minor_units a run.currency.scale) priced.connected ∙ priced.connection_units.1,
      );
      is_not_negative = ap (λ a. dec_lt a zero_decimal) priced.connected ∙ not_negative;
      is_positive = ap (λ a. dec_le a zero_decimal) priced.unit ∙ positive;
      connects_one =
          subst (λ a. (selection.quantity ≡ 1) ⊎ (dec_eq a zero_decimal ≡ true))
            (sym priced.connected)
            (one_connection selection.quantity (dec_eq run.e.connection zero_decimal)
              (refused_incomplete "connection_quantity_basis_unproven") run.one_unit);
      in_bounds = bounds;
      fingerprinted = refl;
    })

failed-injective : {a b : CurrentOffer} → ◌≡◌ {A = Result Failed CurrentOffer} (ok a) (ok b) → a ≡ b
failed-injective {a} h = ap (λ r. elim r [ ok x ↦ x | err e ↦ a ]) h

normalized-ok :
    (digest : Material → Text) (answer : Result String ReadSet) (selection : ProductLinkRequest)
    (configuration : Configuration) (date : ℕ) {offer : CurrentOffer}
    → normalized digest answer selection configuration date ≡ ok offer
    → (reads : ReadSet) × (answer ≡ ok reads)
      × (normalize_current_offer digest reads selection configuration date ≡ ok offer)
normalized-ok digest (err code) selection configuration date h = cc
normalized-ok digest (ok reads) selection configuration date {offer} h =
    elim (Result-cases (normalize_current_offer digest reads selection configuration date)) [
      | inl (found, is_found) ↦ (
        reads,
        refl,
        is_found ∙ ap (λ o. ok o) (failed-injective (rw (is_found, normalized) at h)),
      )
      | inr (r, refused) ↦ cc (rw (refused, normalized) at h)
    ]

-- When `read_current_offer` gives an offer, both readings were answered and normalized, the offer
-- is the one that the second normalizes to and sells what it says of it, and the first had the same
-- fingerprint.
pub read_current_offer-Sells :
    (digest : Material → Text) (first_read second_read : Result String ReadSet)
    (selection : ProductLinkRequest) (configuration : Configuration) (date : ℕ)
    {offer : CurrentOffer}
    → read_current_offer digest first_read second_read selection configuration date ≡ ok offer
    → (before reads : ReadSet) × (first : CurrentOffer) × (first_read ≡ ok before)
      × (second_read ≡ ok reads)
      × (normalize_current_offer digest before selection configuration date ≡ ok first)
      × (normalize_current_offer digest reads selection configuration date ≡ ok offer)
      × Sells digest reads selection configuration date offer
      × (first.fingerprint ≡ offer.fingerprint)
unfolding read_current_offer
read_current_offer-Sells digest first_read second_read selection configuration date {offer} h =
    let (first, is_first, h1) =
      >>=-eq-ok (normalized digest first_read selection configuration date) _ h in
    let (second, is_second, h2) =
      >>=-eq-ok (normalized digest second_read selection configuration date) _ h1 in
    let (_, same, h3) =
      >>=-eq-ok
        (check (text_eq first.fingerprint second.fingerprint)
          (source_failed "selected_source_changed"))
        _ h2 in
    let (before, is_before, normal) =
      normalized-ok digest first_read selection configuration date is_first in
    let (reads, is_reads, normal') =
      normalized-ok digest second_read selection configuration date is_second in
    let is_offer : second ≡ offer = failed-injective h3 in
    let agree : text_eq first.fingerprint second.fingerprint ≡ true = ground (arith, same) in
    (
      before,
      reads,
      first,
      is_before,
      is_reads,
      normal,
      normal' ∙ ap (λ o. ok o) is_offer,
      subst (Sells digest reads selection configuration date) is_offer
          (normalize_current_offer-Sells digest reads selection configuration date normal'),
      text_eq→eq first.fingerprint second.fingerprint agree
          ∙ ap (λ (o : CurrentOffer). o.fingerprint) is_offer,
    )
