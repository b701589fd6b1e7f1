-- ===== src/Offers/Prices.antt =====
-- `_price_start` and `_applicable_price` of apps/api/app/integrations/lbx/selected_offer.py: which
-- price row holds on a date. The calls of `budget.check()` are left out: they end the whole reading
-- when its deadline has passed, and decide nothing else.
pub mod Starts
pub mod Interval
use payments_portal.Commerce.{Refused, required, refused_incomplete}
use payments_portal.Base.Int.{ℤ, eq_ℤ}
use payments_portal.Offers.Provider.{ServicePrice, InlinePrice, TariffPeriod}
use payments_portal.Base.{
  ◌>>◌, ◌>>=◌, ℕ, Option, List, some, none, ◌∷◌, Result, select, map, Bool, if◌then◌else◌, leb,
  ◌==◌, ltb, true, some_and, ok, err, [], false, ◌>>=◌, check, ◌&&◌, opt_eq, is_none, ◌||◌,
}

-- What the function reads of a row, for its two row types. Only a `LbxServicePrice` carries a
-- schedule, which `isinstance` asks for.
pub record Listing (A : Type 0) : Type 0 where
  pub period_of : A → ℕ
  pub start_of : A → Option ℕ
  pub schedule_of : A → Option ServicePrice

abbrev pub service_listing : Listing ServicePrice
service_listing = record {
  period_of = λ (r : ServicePrice). r.period_id;
  start_of = λ (r : ServicePrice). r.start_date;
  schedule_of = λ r. some r;
}

abbrev pub inline_listing : Listing InlinePrice
inline_listing = record {
  period_of = λ (r : InlinePrice). r.period_id;
  start_of = λ (r : InlinePrice). r.price_start_date;
  schedule_of = λ r. none;
}

-- `==` on values that may be None
abbrev pub opt_ℤ_eq : Option ℤ → Option ℤ → Bool
opt_ℤ_eq none none = true
opt_ℤ_eq (some a) (some b) = eq_ℤ a b
opt_ℤ_eq _ _ = false

-- `max` of a start and the others, and `min(..., default=None)`
unfoldable pub latest : ℕ → List ℕ → ℕ
latest s [] = s
latest s (t ∷ ts) = let rest = latest s ts in if leb rest t then t else rest

unfoldable pub earliest : List ℕ → Option ℕ
earliest [] = none
earliest (t ∷ ts) = let rest = earliest ts in if some_and (λ u. leb u t) rest then rest else some t

-- The schedule that a row states about itself must agree with the period and with the next start.
unfoldable pub schedule_fits :
    TariffPeriod → Option ℕ → Option ServicePrice → Result Refused (Unit {0})
schedule_fits period until none = ok tt
schedule_fits period until (some r) = do
  check (opt_ℤ_eq r.period_type period.period_type && opt_eq r.period_length period.period_length)
      (refused_incomplete "price_period_conflict")
  check (is_none r.next_change_date || opt_eq r.next_change_date until)
      (refused_incomplete "price_schedule_gap_or_overlap")

module _ {A : Type 0} (rows : Listing A) where
  -- The rows of the period with their starts; every one of them must have a start.
  unfoldable pub dated : ℕ → List A → Result Refused (List (ℕ × A))
  dated id [] = ok []
  dated id (r ∷ rs) =
      let rest = dated id rs in
      if rows.period_of r == id
      then (required (rows.start_of r) "price_start_unknown" >>= λ start.
          rest >>= λ ds. ok ((start, r) ∷ ds))
      else rest

  abbrev pub started_by : ℕ → List (ℕ × A) → List (ℕ × A)
  started_by date ds = select (λ (d : ℕ × A). leb d.0 date) ds

  abbrev pub starting_at : ℕ → List (ℕ × A) → List (ℕ × A)
  starting_at start ds = select (λ (d : ℕ × A). d.0 == start) ds

  abbrev pub starting_after : ℕ → List (ℕ × A) → List (ℕ × A)
  starting_after start ds = select (λ (d : ℕ × A). ltb start d.0) ds

  abbrev starts : List (ℕ × A) → List ℕ
  starts ds = map (λ (d : ℕ × A). d.0) ds

  -- `candidates[0]`, where there is one candidate
  abbrev pub only : List (ℕ × A) → Result Refused A
  only ((s, r) ∷ []) = ok r
  only _ = err (refused_incomplete "price_applicability_ambiguous")

  -- `max` over the applicable rows, where there is one
  abbrev pub latest_start : List (ℕ × A) → Result Refused ℕ
  latest_start [] = err (refused_incomplete "applicable_price_missing")
  latest_start ((s, r) ∷ ds) = ok (latest s (starts ds))

  unfoldable pub applicable_price : List A → TariffPeriod → ℕ → Result Refused (A × Option ℕ)
  applicable_price prices period effective_on = do
    relevant ← dated period.period_id prices
    let applicable = started_by effective_on relevant
    start ← latest_start applicable
    row ← only (starting_at start applicable)
    let until = earliest (starts (starting_after start relevant))
    schedule_fits period until (rows.schedule_of row)
    ok (row, until)
