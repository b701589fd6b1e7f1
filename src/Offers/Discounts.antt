-- ===== src/Offers/Discounts.antt =====
-- `selected_discounts` of apps/api/app/integrations/lbx/discounts.py: the discounts of the selected
-- period, from either of two representations, which must agree where both are given.
use payments_portal.Commerce.{Refused, Decimal, refused_incomplete, dec_eq}
use payments_portal.Offers.Provider.{
  absent, null_value, Supplied, Discount, TariffService, PeriodDiscount, supplied, InlinePrice,
}
use Prim.Native.String.{String, ◌∷◌}
use payments_portal.Base.{
  ◌>>◌, ◌>>=◌, raise_if, Result, Option, List, Bool, ℕ, true, ◌==◌, false, ◌∷◌, err, ◌&&◌,
  if◌then◌else◌, any, select, some, ◌||◌, [], leb, ok, none,
}

abbrev refuse : {A : Type 0} → String → Result Refused A
refuse reason = err (refused_incomplete reason)

abbrev is_null : {A : Type 0} → Supplied A → Bool
is_null null_value = true
is_null _ = false

abbrev pub opt_nat_eq : Option ℕ → Option ℕ → Bool
opt_nat_eq none none = true
opt_nat_eq (some a) (some b) = a == b
opt_nat_eq _ _ = false

abbrev pub opt_dec_eq : Option Decimal → Option Decimal → Bool
opt_dec_eq none none = true
opt_dec_eq (some a) (some b) = dec_eq a b
opt_dec_eq _ _ = false

-- `==` on two discounts compares their fields.
unfoldable pub discount_eq : Discount → Discount → Bool
discount_eq a b =
    ((a.discount_id == b.discount_id) && opt_nat_eq a.count b.count)
    && (opt_dec_eq a.new_price b.new_price
        && (opt_dec_eq a.new_bulk_price b.new_bulk_price && opt_dec_eq a.rate b.rate))

unfoldable pub discounts_eq : List Discount → List Discount → Bool
discounts_eq [] [] = true
discounts_eq (a ∷ rest) (b ∷ others) = discount_eq a b && discounts_eq rest others
discounts_eq _ _ = false

-- `sorted(rows, key=lambda row: row.discount_id)`, which keeps the order of equal keys
unfoldable pub insert_discount : Discount → List Discount → List Discount
insert_discount d [] = d ∷ []
insert_discount d (e ∷ es) =
    let rest = insert_discount d es in
    if leb d.discount_id e.discount_id then d ∷ (e ∷ es) else e ∷ rest

unfoldable pub sort_discounts : List Discount → List Discount
sort_discounts [] = []
sort_discounts (d ∷ ds) = insert_discount d (sort_discounts ds)

-- `len({row.discount_id for row in rows}) != len(rows)`
unfoldable pub repeats_discount : List Discount → Bool
repeats_discount [] = false
repeats_discount (d ∷ ds) =
    any (λ (e : Discount). e.discount_id == d.discount_id) ds || repeats_discount ds

-- The period's rows out of the service-level representation.
abbrev pub one_period : Bool → List PeriodDiscount → Result Refused (List Discount)
one_period empty [] = if empty then ok [] else refuse "discounts_selected_period_missing"
one_period empty (row ∷ []) = elim row.discounts [
  | absent ↦ refuse "discounts_unknown"
  | null_value ↦ refuse "discounts_null"
  | supplied ds ↦ ok ds
]
one_period empty (row ∷ (other ∷ rows)) = refuse "discounts_ambiguous"

abbrev is_empty : {A : Type 0} → List A → Bool
is_empty [] = true
is_empty (x ∷ xs) = false

-- `legacy`: none where the service has no such field.
unfoldable pub legacy_discounts :
    ℕ → Supplied (List PeriodDiscount) → Result Refused (Option (List Discount))
legacy_discounts period_id (supplied periods) =
    one_period (is_empty periods)
      (select (λ (row : PeriodDiscount). row.period_id == period_id) periods)
    >>= λ ds. ok (some ds)
legacy_discounts period_id _ = ok none

abbrev pub nested_discounts : Supplied (List Discount) → Option (List Discount)
nested_discounts (supplied ds) = some ds
nested_discounts _ = none

abbrev repeats : Option (List Discount) → Bool
repeats none = false
repeats (some ds) = repeats_discount ds

abbrev pub agreed : Option (List Discount) → Option (List Discount) → Result Refused (List Discount)
agreed (some ds) (some es) =
    if discounts_eq (sort_discounts ds) (sort_discounts es)
    then ok ds
    else refuse "discounts_conflict"
agreed (some ds) none = ok ds
agreed none (some es) = ok es
agreed none none = refuse "discounts_unknown"

unfoldable pub selected_discounts : TariffService → InlinePrice → Result Refused (List Discount)
selected_discounts service inline = do
  raise_if (is_null inline.discounts || is_null service.discounts)
      (refused_incomplete "discounts_null")
  legacy ← legacy_discounts inline.period_id service.discounts
  let nested = nested_discounts inline.discounts
  raise_if (repeats nested || repeats legacy) (refused_incomplete "discounts_ambiguous")
  agreed nested legacy
