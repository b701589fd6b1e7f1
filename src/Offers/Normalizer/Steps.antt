-- ===== src/Offers/Normalizer/Steps.antt =====
-- What each part of `normalize_current_offer` proves when it returns.
use payments_portal.Offers.Normalizer.Amounts.{ok-injective}
use payments_portal.Base.Int.{ℤ, ◌≤ℤ◌, pos}
use payments_portal.Offers.Normalizer.Current.{
  offer_money, offer_currency, normalize_current_offer, priced_offer, signed_offer, unsigned_offer,
}
use payments_portal.Offers.Prices.Starts.{select-holds}
use payments_portal.Offers.Facts.{the_row, Material, Currency, Configuration, TariffFacts}
use payments_portal.Commerce.{
  ProductLinkRequest, refused_not_sellable, Refused, CommercialMoney, multiply, from_int,
  CurrentOffer, minor_units, dec_le, zero_decimal, dec_eq, refused_incomplete, quantity_bounds,
  PeriodUnit, PeriodAnchor, dec_lt,
}
use payments_portal.Offers.Provider.{ReadSet, TariffPeriod}
use payments_portal.Offers.Normalizer.{
  selected_rows, supported, ReadSet, String, ProductLinkRequest, the_row, Selected, TariffPeriod,
  effective_price, Effective, unsupported, ℤ, period_unit, period_anchor,
}
use payments_portal.Base.{
  ◌∷◌, [], raise_if, >>=-eq-ok, Bool, List, ◌≡◌, select, ok, true, All, false, ◌==◌, arith, subst,
  ap, ◌∙◌, ℕ, ==_iff, some, sym, Text, ◌⊎◌, not, ◌&&◌,
}

pub the_row-All :
    {A : Type 0} (P : A → Type 0) (xs : List A) (reason : String) {r : A}
    → the_row xs reason ≡ ok r
    → All P xs
    → P r
the_row-All P [] reason e held = cc
the_row-All P (x ∷ []) reason {r} e held = subst P (ok-injective e) held.0
the_row-All P (x ∷ (y ∷ xs)) reason e held = cc

pub selected_rows-period :
    (reads : ReadSet) (selection : ProductLinkRequest) {s : Selected}
    → selected_rows reads selection ≡ ok s
    → s.period.period_id ≡ selection.period_id
unfolding selected_rows
selected_rows-period reads selection {s} h =
    let is_selected = λ (p : TariffPeriod). p.period_id == selection.period_id in
    let reason : String = "period_membership_missing_or_ambiguous" in
    let (period, is_period, h1) =
      >>=-eq-ok (the_row (select is_selected reads.periods) reason) _ h in
    let held =
      the_row-All (λ (p : TariffPeriod). is_selected p ≡ true) (select is_selected reads.periods)
        reason is_period (select-holds is_selected reads.periods) in
    let same : s.period ≡ period = ground (arith, h1) in
    ap (λ (p : TariffPeriod). p.period_id) same
    ∙ (==_iff period.period_id selection.period_id).0 held

pub supported-All :
    (table : List (Bool × String))
    → supported table ≡ ok tt
    → All (λ (c : Bool × String). c.0 ≡ false) table
unfolding supported
supported-All [] h = tt
supported-All ((condition, reason) ∷ rest) h =
    let (_, passed, h1) = >>=-eq-ok (raise_if condition (refused_not_sellable reason)) _ h in
    (ground (arith, passed), supported-All rest h1)

-- What the amounts of an offer are.
pub record IsPriced (scale : ℕ) (selection : ProductLinkRequest) (e : Effective)
    (money : CommercialMoney) : Type 0 where
  pub unit : money.recurring_unit_amount ≡ e.recurring
  pub connected : money.connection_unit_amount ≡ e.connection
  pub once : money.connection_amount ≡ money.connection_unit_amount
  pub total : multiply e.recurring (from_int (pos selection.quantity)) ≡ ok money.recurring_amount
  pub units : (u : ℤ) × (minor_units e.recurring scale ≡ ok u)
  pub total_units : (u : ℤ) × (minor_units money.recurring_amount scale ≡ ok u)
  pub connection_units : (u : ℤ) × (minor_units e.connection scale ≡ ok u)

pub offer_money-IsPriced :
    (currency : Currency) (selection : ProductLinkRequest) (e : Effective) {money : CommercialMoney}
    → offer_money currency selection e ≡ ok money
    → IsPriced currency.scale selection e money
unfolding offer_money
offer_money-IsPriced currency selection e {money} h =
    let (total, is_total, h1) =
      >>=-eq-ok (multiply e.recurring (from_int (pos selection.quantity))) _ h in
    let (u, is_u, h2) = >>=-eq-ok (minor_units e.recurring currency.scale) _ h1 in
    let (v, is_v, h3) = >>=-eq-ok (minor_units e.connection currency.scale) _ h2 in
    let (w, is_w, h4) = >>=-eq-ok (minor_units total currency.scale) _ h3 in
    let (same_unit, same_connection, same_once, same_total) : (money.recurring_unit_amount
          ≡ e.recurring)
        × (money.connection_unit_amount ≡ e.connection)
        × (money.connection_amount ≡ money.connection_unit_amount)
        × (money.recurring_amount ≡ total) =
      ground (arith, h4) in
    record {
      unit = same_unit;
      connected = same_connection;
      once = same_once;
      total = is_total ∙ ap (λ a. ok a) (sym same_total);
      units = (u, is_u);
      connection_units = (v, is_v);
      total_units = (w, ap (λ a. minor_units a currency.scale) same_total ∙ is_w);
    }

pub unsupported-false :
    (selection : ProductLinkRequest) (s : Selected) (e : Effective) (minimum maximum : ℤ)
    → supported (unsupported selection s e minimum maximum) ≡ ok tt
    → ((minimum ≤ℤ pos selection.quantity) × (pos selection.quantity ≤ℤ maximum))
      × (dec_le e.recurring zero_decimal ≡ false)
      × (dec_lt e.connection zero_decimal ≡ false)
unfolding unsupported
unsupported-false selection s e minimum maximum h =
    let (_, (_, (_, (_, (_, (_, (_, (_, (_, (_, (bounds, (prices, _)))))))))))) =
      supported-All (unsupported selection s e minimum maximum) h in
    (ground (arith, bounds), ground (arith, prices), ground (arith, prices))

pub one_connection :
    (q : ℕ) (free : Bool) (r : Refused)
    → raise_if (not (q == 1) && not free) r ≡ ok tt
    → (q ≡ 1) ⊎ (free ≡ true)
one_connection q free r h = ground (arith, h)

pub offer_currency-mapped :
    (configuration : Configuration) (t : TariffFacts) {currency : Currency}
    → offer_currency configuration t ≡ ok currency
    → configuration.currency_mapping ≡ some currency
unfolding offer_currency
offer_currency-mapped configuration t h = ground (arith, h)

-- The steps of `normalize_current_offer` when it returns.
pub record NormalRun (digest : Material → Text) (reads : ReadSet) (selection : ProductLinkRequest)
    (configuration : Configuration) (date : ℕ) (offer : CurrentOffer) : Type 0 where
  pub s : Selected
  pub unit : PeriodUnit
  pub anchor : PeriodAnchor
  pub currency : Currency
  pub e : Effective
  pub minimum : ℤ
  pub maximum : ℤ
  pub money : CommercialMoney
  pub is_selected : selected_rows reads selection ≡ ok s
  pub is_currency : offer_currency configuration s.tariff_fact ≡ ok currency
  pub is_effective : effective_price reads s.period s.service date ≡ ok e
  pub one_unit :
      raise_if
        (not (selection.quantity == 1) && not (dec_eq e.connection zero_decimal))
        (refused_incomplete "connection_quantity_basis_unproven")
      ≡ ok tt
  pub is_supported : supported (unsupported selection s e minimum maximum) ≡ ok tt
  pub is_money : offer_money currency selection e ≡ ok money
  pub result :
      signed_offer digest configuration.account_id selection
        (unsigned_offer reads selection s e unit anchor money minimum maximum)
      ≡ offer

pub normal_run :
    (digest : Material → Text) (reads : ReadSet) (selection : ProductLinkRequest)
    (configuration : Configuration) (date : ℕ) {offer : CurrentOffer}
    → normalize_current_offer digest reads selection configuration date ≡ ok offer
    → NormalRun digest reads selection configuration date offer
unfolding normalize_current_offer priced_offer
normal_run digest reads selection configuration date {offer} h =
    let (s, is_s, h1) = >>=-eq-ok (selected_rows reads selection) _ h in
    let (unit, _, h2) = >>=-eq-ok (period_unit s.period_fact.period_type) _ h1 in
    let (anchor, _, h3) = >>=-eq-ok (period_anchor s.tariff_fact.float_period) _ h2 in
    let (currency, is_currency, h4) = >>=-eq-ok (offer_currency configuration s.tariff_fact) _ h3 in
    let (e, is_e, h5) = >>=-eq-ok (effective_price reads s.period s.service date) _ h4 in
    let (_, one, h6) =
      >>=-eq-ok
        (raise_if (not (selection.quantity == 1) && not (dec_eq e.connection zero_decimal))
          (refused_incomplete "connection_quantity_basis_unproven"))
        _ h5 in
    let ((minimum, maximum), _, h7) =
      >>=-eq-ok (quantity_bounds s.service.min_multiplicator s.service.max_multiplicator) _ h6 in
    let (_, fits, h8) = >>=-eq-ok (supported (unsupported selection s e minimum maximum)) _ h7 in
    let (money, is_money, h9) = >>=-eq-ok (offer_money currency selection e) _ h8 in
    record {
      s = s;
      unit = unit;
      anchor = anchor;
      currency = currency;
      e = e;
      minimum = minimum;
      maximum = maximum;
      money = money;
      is_selected = is_s;
      is_currency = is_currency;
      is_effective = is_e;
      one_unit = one;
      is_supported = fits;
      is_money = is_money;
      result = ok-injective h9;
    }
