-- ===== src/Offers/Normalizer.antt =====
-- `normalize_current_offer` and `read_current_offer` of
-- apps/api/app/integrations/lbx/current_offer.py, in the order of the code: the selected rows, their
-- facts, the price on the date, what the portal does not support, and the offer. The digest of the
-- canonical document is an argument (`commercial_digest` is SHA-256), and so are the two readings of
-- the provider. `budget.check()` is left out, as in Prices.
pub mod Current
pub mod Amounts
pub mod Steps
pub mod Sells
use payments_portal.Offers.Discounts.{selected_discounts}
use payments_portal.Offers.Prices.{applicable_price, service_listing, inline_listing}
use payments_portal.Commerce.{
  ProductLinkRequest, Refused, Decimal, PeriodUnit, PeriodAnchor, required, dec_eq,
  refused_incomplete, refused_not_sellable, zero_decimal, dec_le, dec_lt, exact_value,
}
use payments_portal.Offers.Facts.{
  TariffFacts, ServiceFacts, PeriodFacts, is_flag, the_row, repeats_id, default_components,
  tariff_facts, service_facts, period_facts,
}
use payments_portal.Base.Int.{ℤ, eq_ℤ, pos, leb_ℤ}
use payments_portal.Offers.Provider.{
  TariffPeriod, ReadSet, ServicePrice, InlinePrice, TariffService, Discount,
}
use Prim.Native.String.{String}
use payments_portal.Base.{
  ◌∷◌, [], ◌>>◌, ◌>>=◌, raise_if, check, Bool, List, Result, Option, ℕ, true, not, all, ◌==◌, false,
  ◌||◌, ok, select, map, opt_eq, ◌&&◌, some, if◌then◌else◌, err,
}

-- What the first part of the function has found.
pub record Selected : Type 0 where
  pub period : TariffPeriod
  pub service : TariffService
  pub defaults : List ℕ
  pub tariff_fact : TariffFacts
  pub service_fact : ServiceFacts
  pub period_fact : PeriodFacts

-- `PERIOD_UNITS` and `PERIOD_ANCHORS`
unfoldable pub period_unit : ℤ → Result Refused PeriodUnit
period_unit n =
    if eq_ℤ n (pos 1)
    then ok PeriodUnit.day
    else if eq_ℤ n (pos 2)
    then ok PeriodUnit.week
    else if eq_ℤ n (pos 3)
    then ok PeriodUnit.month
    else if eq_ℤ n (pos 4)
    then ok PeriodUnit.year
    else err (refused_incomplete "period_meaning_unknown")

unfoldable pub period_anchor : ℤ → Result Refused PeriodAnchor
period_anchor n =
    if eq_ℤ n (pos 0)
    then ok PeriodAnchor.calendar_month
    else if eq_ℤ n (pos 1)
    then ok PeriodAnchor.instance_start
    else if eq_ℤ n (pos 2)
    then ok PeriodAnchor.first_instance_start
    else err (refused_incomplete "period_meaning_unknown")

-- The fields that must be 0 or 1.
unfoldable pub flags_known : TariffFacts → ServiceFacts → Bool
flags_known t s = all is_flag (
    t.archive ∷ t.balance_blocks ∷ t.dynamic_rent_unblock_type ∷ t.payment_type
    ∷ t.assign_unavailable ∷ t.proportional_rent ∷ s.periodic_service ∷ s.user_can_set_mul
    ∷ s.user_available ∷ s.archive ∷ [])

unfoldable pub selected_rows : ReadSet → ProductLinkRequest → Result Refused Selected
selected_rows reads selection = do
  period ←
      the_row (select (λ (p : TariffPeriod). p.period_id == selection.period_id) reads.periods)
        "period_membership_missing_or_ambiguous"
  raise_if (repeats_id (map (λ (p : TariffPeriod). p.period_id) reads.periods))
      (refused_incomplete "period_membership_missing_or_ambiguous")
  service ←
      the_row
        (select (λ (s : TariffService). s.tariff_service_id == selection.tariff_service_id)
          reads.services)
        "component_membership_missing_or_ambiguous"
  defaults ← default_components selection.tariff_id [] reads.services
  tariff_fact ← tariff_facts reads.tariff
  service_fact ← service_facts service
  period_fact ← period_facts period
  check (flags_known tariff_fact service_fact) (refused_incomplete "source_flag_meaning_unknown")
  check (is_flag tariff_fact.dynamic_rent || eq_ℤ tariff_fact.dynamic_rent (pos 2))
      (refused_incomplete "pricing_algorithm_unknown")
  ok (record {
    period = period;
    service = service;
    defaults = defaults;
    tariff_fact = tariff_fact;
    service_fact = service_fact;
    period_fact = period_fact;
  })

-- A column that the effective row and the inline row both have, with one value.
abbrev pub agreed_column :
    {A : Type 0} → (A → A → Bool) → Option A → Option A → String → String → Result Refused A
agreed_column same actual inline actual_reason inline_reason = do
  value ← required actual actual_reason
  other ← required inline inline_reason
  check (same value other) (refused_incomplete "inline_effective_price_conflict")
  ok value

-- The price that holds on the date, and its agreed columns.
pub record Effective : Type 0 where
  pub row : ServicePrice
  pub until : Option ℕ
  pub start : ℕ
  pub recurring : Decimal
  pub connection : Decimal
  pub bulk_price : Decimal
  pub bulk_include_amount : ℕ
  pub discounts : List Discount

-- The start and the exact values, once the columns agree.
unfoldable pub effective_amounts :
    TariffService
    → ServicePrice
    → Option ℕ
    → InlinePrice
    → Decimal
    → Decimal
    → Decimal
    → ℕ
    → Result Refused Effective
effective_amounts service row until inline price connection_price bulk_price bulk_include_amount =
    do
      -- an applicable row has a start
      start ← required row.start_date "price_start_unknown"
      check (opt_eq inline.price_start_date (some start))
          (refused_incomplete "inline_effective_date_conflict")
      discounts ← selected_discounts service inline
      recurring ← exact_value price "recurring_price_invalid"
      connection ← exact_value connection_price "connection_price_invalid"
      ok (record {
        row = row;
        until = until;
        start = start;
        recurring = recurring;
        connection = connection;
        bulk_price = bulk_price;
        bulk_include_amount = bulk_include_amount;
        discounts = discounts;
      })

unfoldable pub agreed_price :
    TariffService → ServicePrice → Option ℕ → InlinePrice → Result Refused Effective
agreed_price service row until inline = do
  price ← agreed_column dec_eq row.price inline.price "price_unknown" "inline_price_unknown"
  connection_price ←
      agreed_column dec_eq row.connection_price inline.connection_price "connection_price_unknown"
        "inline_connection_price_unknown"
  bulk_price ←
      agreed_column dec_eq row.bulk_price inline.bulk_price "bulk_price_unknown"
        "inline_bulk_price_unknown"
  bulk_include_amount ←
      agreed_column (λ a b. a == b) row.bulk_include_amount inline.bulk_include_amount
        "bulk_include_amount_unknown" "inline_bulk_include_amount_unknown"
  effective_amounts service row until inline price connection_price bulk_price bulk_include_amount

unfoldable pub effective_price :
    ReadSet → TariffPeriod → TariffService → ℕ → Result Refused Effective
effective_price reads period service effective_on = do
  (row, until) ← applicable_price service_listing reads.prices period effective_on
  inline_prices ← required service.prices "inline_prices_missing"
  (inline, _) ← applicable_price inline_listing inline_prices period effective_on
  agreed_price service row until inline

-- The first condition of the table that holds is the reason of the refusal.
unfoldable pub supported : List (Bool × String) → Result Refused (Unit {0})
supported [] = ok tt
supported ((condition, reason) ∷ rest) =
    raise_if condition (refused_not_sellable reason) >> supported rest

abbrev is_not : ℤ → ℕ → Bool
is_not n k = not (eq_ℤ n (pos k))

abbrev is_only : List ℕ → ℕ → Bool
is_only (i ∷ []) k = i == k
is_only _ k = false

abbrev is_empty : {A : Type 0} → List A → Bool
is_empty [] = true
is_empty (x ∷ xs) = false

-- `unsupported`
unfoldable pub unsupported :
    ProductLinkRequest → Selected → Effective → ℤ → ℤ → List (Bool × String)
unsupported selection s e minimum maximum =
    let t = s.tariff_fact in
    let f = s.service_fact in
    (
      not (is_only s.defaults selection.tariff_service_id),
      "additional_or_missing_default_components_unsupported",
    )
    ∷ (
      (is_not t.archive 0 || is_not t.assign_unavailable 0)
          || (is_not f.archive 0 || s.period_fact.hidden),
      "offer_unavailable",
    )
    ∷ (is_not f.periodic_service 1 || f.bulk_service, "fixed_periodic_profile_required")
    ∷ (is_not t.payment_type 0 || is_not t.balance_blocks 1, "prepaid_blocking_required")
    ∷ (
      is_not t.dynamic_rent 0 || is_not t.dynamic_rent_unblock_type 0,
      "fixed_full_funding_required",
    )
    ∷ (not (t.demo_period_length == 0), "demo_unsupported")
    ∷ (is_not t.proportional_rent 0, "proration_unsupported")
    ∷ (is_not f.user_can_set_mul 0 || is_not f.user_available 0, "customer_management_unsupported")
    ∷ (
      not (dec_eq e.bulk_price zero_decimal) || not (e.bulk_include_amount == 0),
      "bulk_modifiers_unsupported",
    )
    ∷ (not (is_empty e.discounts), "discounts_unsupported")
    ∷ (
      not (leb_ℤ minimum (pos selection.quantity) && leb_ℤ (pos selection.quantity) maximum),
      "commercial_quantity_out_of_bounds",
    )
    ∷ (
      dec_le e.recurring zero_decimal || dec_lt e.connection zero_decimal,
      "price_profile_unsupported",
    )
    ∷ []
