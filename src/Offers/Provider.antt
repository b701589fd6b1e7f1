-- ===== src/Offers/Provider.antt =====
-- apps/api/app/integrations/lbx/dto.py: the provider's objects that an offer is read from, after
-- validation; identities are positive numbers, calendar dates are ordinals of days. `SelectedReadSet`
-- of selected_offer.py holds one reading of them.
use payments_portal.Commerce.{Decimal}
use payments_portal.Base.Int.{ℤ}
use payments_portal.Base.{ℕ, List, Option, Bool}

pub record Tariff : Type 0 where
  pub tariff_id : ℕ
  pub archive : Option ℤ
  pub currency_id : Option ℕ
  pub balance_blocks : Option ℤ
  pub block_to_close_days : Option ℕ
  pub dynamic_rent : Option ℤ
  pub dynamic_rent_unblock_type : Option ℤ
  pub payment_type : Option ℤ
  pub float_period : Option ℤ
  pub assign_unavailable : Option ℤ
  pub proportional_rent : Option ℤ
  pub demo_period_length : Option ℕ

pub record TariffPeriod : Type 0 where
  pub tariff_period_id : ℕ
  pub period_id : ℕ
  pub hidden : Option Bool
  pub period_type : Option ℤ
  pub period_length : Option ℕ

pub record Discount : Type 0 where
  pub discount_id : ℕ
  pub count : Option ℕ
  pub new_price : Option Decimal
  pub new_bulk_price : Option Decimal
  pub rate : Option Decimal

-- A field whose presence in the answer matters (`model_fields_set`): absent, null, or a list.
pub data Supplied (A : Type 0) : Type 0 where
  absent null_value : Supplied A
  supplied : A → Supplied A

pub record InlinePrice : Type 0 where
  pub period_id : ℕ
  pub price : Option Decimal
  pub bulk_price : Option Decimal
  pub connection_price : Option Decimal
  pub price_start_date : Option ℕ
  pub bulk_include_amount : Option ℕ
  pub discounts : Supplied (List Discount)

pub record PeriodDiscount : Type 0 where
  pub period_id : ℕ
  pub discounts : Supplied (List Discount)

pub record TariffService : Type 0 where
  pub tariff_id : ℕ
  pub tariff_service_id : ℕ
  pub bulk_service : Option Bool
  pub enabled_by_default : Option ℤ
  pub min_multiplicator : Option Decimal
  pub max_multiplicator : Option Decimal
  pub periodic_service : Option ℤ
  pub user_can_set_mul : Option ℤ
  pub user_available : Option ℤ
  pub archive : Option ℤ
  pub prices : Option (List InlinePrice)
  pub discounts : Supplied (List PeriodDiscount)

-- `start_date` is the one that `normalize_calendar_start` leaves.
pub record ServicePrice : Type 0 where
  pub price_id : ℕ
  pub period_id : ℕ
  pub start_date : Option ℕ
  pub connection_price : Option Decimal
  pub bulk_price : Option Decimal
  pub price : Option Decimal
  pub bulk_include_amount : Option ℕ
  pub period_type : Option ℤ
  pub period_length : Option ℕ
  pub next_change_date : Option ℕ

-- The four reads, and the latest instant at which one of them was observed.
pub record ReadSet : Type 0 where
  pub tariff : Tariff
  pub periods : List TariffPeriod
  pub services : List TariffService
  pub prices : List ServicePrice
  pub observed_at : ℕ
