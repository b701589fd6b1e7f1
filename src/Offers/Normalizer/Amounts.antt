-- ===== src/Offers/Normalizer/Amounts.antt =====
-- The price row that an offer's amounts are taken from.
use payments_portal.Offers.Discounts.{selected_discounts}
use payments_portal.Offers.Prices.{service_listing, applicable_price, inline_listing}
use payments_portal.Offers.Prices.Interval.{Applies, applicable_price-Applies}
use payments_portal.Commerce.{Refused, dec_eq, refused_incomplete, Decimal, exact_value, required}
use payments_portal.Offers.Provider.{
  ReadSet, TariffPeriod, TariffService, ServicePrice, InlinePrice,
}
use payments_portal.Offers.Normalizer.{
  ReadSet, String, TariffPeriod, effective_price, TariffService, Effective, service_listing,
  applicable_price, agreed_column, inline_listing, selected_discounts, ServicePrice,
  effective_amounts, agreed_price, InlinePrice,
}
use payments_portal.Base.{
  >>=-eq-ok, Bool, ◌≡◌, ok, ◌==◌, Result, subst, ap, err, ◌∙◌, ℕ, some, Option, none, check, opt_eq,
}

pub ok-injective : {A : Type 0} {a b : A} → ◌≡◌ {A = Result Refused A} (ok a) (ok b) → a ≡ b
ok-injective {A} {a} {b} h = ap (λ r. elim r [ ok x ↦ x | err e ↦ a ]) h

required-some :
    {A : Type 0} (value : Option A) (reason : String) {a : A}
    → required value reason ≡ ok a
    → value ≡ some a
required-some (some a) reason h = ap some (ok-injective h)
required-some none reason h = cc

agreed_column-some :
    {A : Type 0} (same : A → A → Bool) (actual inline : Option A)
    (actual_reason inline_reason : String) {a : A}
    → agreed_column same actual inline actual_reason inline_reason ≡ ok a
    → actual ≡ some a
agreed_column-some same actual inline actual_reason inline_reason h =
    let (value, is_value, h1) = >>=-eq-ok (required actual actual_reason) _ h in
    let (other, _, h2) = >>=-eq-ok (required inline inline_reason) _ h1 in
    let (_, _, h3) =
      >>=-eq-ok (check (same value other) (refused_incomplete "inline_effective_price_conflict")) _
        h2 in
    required-some actual actual_reason is_value ∙ ap some (ok-injective h3)

effective_amounts-exact :
    (service : TariffService) (row : ServicePrice) (until : Option ℕ) (inline : InlinePrice)
    (price connection_price bulk_price : Decimal) (bulk_include_amount : ℕ) {e : Effective}
    → effective_amounts service row until inline price connection_price bulk_price
        bulk_include_amount
      ≡ ok e
    → (exact_value price "recurring_price_invalid" ≡ ok e.recurring)
      × (exact_value connection_price "connection_price_invalid" ≡ ok e.connection)
      × (row ≡ e.row)
      × (until ≡ e.until)
      × (row.start_date ≡ some e.start)
unfolding effective_amounts
effective_amounts-exact service row until inline price connection_price bulk_price included {e} h =
    let (start, is_start, h1) = >>=-eq-ok (required row.start_date "price_start_unknown") _ h in
    let (_, _, h2) =
      >>=-eq-ok
        (check (opt_eq inline.price_start_date (some start))
          (refused_incomplete "inline_effective_date_conflict"))
        _ h1 in
    let (discounts, _, h3) = >>=-eq-ok (selected_discounts service inline) _ h2 in
    let (recurring, is_recurring, h4) =
      >>=-eq-ok (exact_value price "recurring_price_invalid") _ h3 in
    let (connection, is_connection, h5) =
      >>=-eq-ok (exact_value connection_price "connection_price_invalid") _ h4 in
    let same = ok-injective h5 in
    (
      is_recurring ∙ ap (λ (x : Effective). ok x.recurring) same,
      is_connection ∙ ap (λ (x : Effective). ok x.connection) same,
      ap (λ (x : Effective). x.row) same,
      ap (λ (x : Effective). x.until) same,
      required-some row.start_date "price_start_unknown" is_start
          ∙ ap (λ (x : Effective). some x.start) same,
    )

-- The amounts are the exact values of the row's price and connection price.
pub record IsAgreed (row : ServicePrice) (e : Effective) : Type 0 where
  pub price :
      (d : Decimal) × (row.price ≡ some d)
      × (exact_value d "recurring_price_invalid" ≡ ok e.recurring)
  pub connection :
      (d : Decimal) × (row.connection_price ≡ some d)
      × (exact_value d "connection_price_invalid" ≡ ok e.connection)

agreed_price-IsAgreed :
    (service : TariffService) (row : ServicePrice) (until : Option ℕ) (inline : InlinePrice)
    {e : Effective}
    → agreed_price service row until inline ≡ ok e
    → IsAgreed row e × (row ≡ e.row) × (until ≡ e.until) × (row.start_date ≡ some e.start)
unfolding agreed_price
agreed_price-IsAgreed service row until inline {e} h =
    let (price, is_price, h1) =
      >>=-eq-ok (agreed_column dec_eq row.price inline.price "price_unknown" "inline_price_unknown")
        _ h in
    let (connection, is_connection, h2) =
      >>=-eq-ok
        (agreed_column dec_eq row.connection_price inline.connection_price
          "connection_price_unknown" "inline_connection_price_unknown")
        _ h1 in
    let (bulk_price, _, h3) =
      >>=-eq-ok
        (agreed_column dec_eq row.bulk_price inline.bulk_price "bulk_price_unknown"
          "inline_bulk_price_unknown")
        _ h2 in
    let (included, _, h4) =
      >>=-eq-ok
        (agreed_column (λ a b. a == b) row.bulk_include_amount inline.bulk_include_amount
          "bulk_include_amount_unknown" "inline_bulk_include_amount_unknown")
        _ h3 in
    let (recurring, connecting, same_row, same_until, starts) =
      effective_amounts-exact service row until inline price connection bulk_price included h4 in
    (
      record {
        price = (price, agreed_column-some dec_eq row.price inline.price _ _ is_price, recurring);
        connection = (
          connection,
          agreed_column-some dec_eq row.connection_price inline.connection_price _ _ is_connection,
          connecting,
        );
      },
      same_row,
      same_until,
      starts,
    )

-- The row that an effective price is taken from holds on the date, and has its amounts.
pub effective_price-Applies :
    (reads : ReadSet) (period : TariffPeriod) (service : TariffService) (date : ℕ) {e : Effective}
    → effective_price reads period service date ≡ ok e
    → Applies service_listing reads.prices period.period_id date e.row e.until
      × (e.row.start_date ≡ some e.start)
      × IsAgreed e.row e
unfolding effective_price
effective_price-Applies reads period service date {e} h =
    let ((row, until), applies, h1) =
      >>=-eq-ok (applicable_price service_listing reads.prices period date) _ h in
    let (inline_prices, _, h2) = >>=-eq-ok (required service.prices "inline_prices_missing") _ h1 in
    let ((inline, _), _, h3) =
      >>=-eq-ok (applicable_price inline_listing inline_prices period date) _ h2 in
    let (agreed, is_row, is_until, starts) = agreed_price-IsAgreed service row until inline h3 in
    let found = applicable_price-Applies service_listing reads.prices period date applies in
    (
      subst (λ r. Applies service_listing reads.prices period.period_id date r e.until) is_row
          (subst (λ u. Applies service_listing reads.prices period.period_id date row u) is_until
            found),
      subst (λ (r : ServicePrice). r.start_date ≡ some e.start) is_row starts,
      subst (λ r. IsAgreed r e) is_row agreed,
    )
