-- ===== src/Commerce/Decimals.antt =====
-- Python's `Decimal` as the code uses it, by its exact parts, and the refusals of
-- apps/api/app/domains/catalog/commercial_offer.py.
use Prim.Native.String.{String}
use payments_portal.Base.{
  ℕ, ◌+◌, ◌*◌, ◌/◌, ◌%◌, ◌^◌, Bool, true, false, not, ◌||◌, Option, ltb, ◌==◌, if◌then◌else◌,
  length, str, Result, ok, err, ◌>>=◌, ◌>>◌, raise_if, or_raise,
}
use payments_portal.Base.Int.{ℤ, pos, negsuc, pos_part, ◌+ℤ◌, ◌-ℤ◌, ltb_ℤ, leb_ℤ, eq_ℤ, abs, sub_ℕ}

pub data OfferRefusalKind : Type 0 where
  incomplete not_sellable : OfferRefusalKind

-- `SelectedOfferRefused`: its kind and its reason.
pub record Refused : Type 0 where
  pub kind : OfferRefusalKind
  pub reason : String

-- `_incomplete(reason)`
abbrev pub refused_incomplete : String → Refused
refused_incomplete reason = record { kind = incomplete; reason = reason }

abbrev pub refused_not_sellable : String → Refused
refused_not_sellable reason = record { kind = not_sellable; reason = reason }

-- `as_tuple()` of a finite decimal, with its digits read as one number, which has no leading zeros;
-- or an infinity or a NaN.
pub data Decimal : Type 0 where
  finite : (sign : Bool) (coefficient : ℕ) (exponent : ℤ) → Decimal
  nonfinite : Decimal

abbrev pub max_exact_digits : ℕ
max_exact_digits = 256

abbrev pub max_money_scale : ℕ
max_money_scale = 36

-- `Decimal(n)` of an `int`
abbrev pub from_int : ℤ → Decimal
from_int (pos n) = finite false n (pos 0)
from_int (negsuc n) = finite true (n + 1) (pos 0)

abbrev pub signed : Bool → ℕ → ℤ
signed true n = sub_ℕ 0 n
signed false n = pos n

-- The value of a finite decimal as a multiple of ten to the power `at`, for an `at` that is at most
-- its exponent.
unfoldable pub scaled : Bool → ℕ → ℤ → ℤ → ℤ
scaled sign coefficient exponent at = signed sign (coefficient * 10 ^ pos_part (exponent -ℤ at))

abbrev pub min_ℤ : ℤ → ℤ → ℤ
min_ℤ a b = if leb_ℤ a b then a else b

-- `a == b`, `a < b` and `a <= b` on decimals compare the values, not the representations; a NaN is
-- equal to nothing and in no order (an infinity does not pass `_exact`, where orders are asked).
unfoldable pub dec_eq : Decimal → Decimal → Bool
unfolding scaled
dec_eq (finite s c e) (finite t d f) = eq_ℤ (scaled s c e (min_ℤ e f)) (scaled t d f (min_ℤ e f))
dec_eq _ _ = false

unfoldable pub dec_lt : Decimal → Decimal → Bool
unfolding scaled
dec_lt (finite s c e) (finite t d f) = ltb_ℤ (scaled s c e (min_ℤ e f)) (scaled t d f (min_ℤ e f))
dec_lt _ _ = false

unfoldable pub dec_le : Decimal → Decimal → Bool
unfolding scaled
dec_le (finite s c e) (finite t d f) = leb_ℤ (scaled s c e (min_ℤ e f)) (scaled t d f (min_ℤ e f))
dec_le _ _ = false

-- `_required(value, reason)`
abbrev pub required : {A : Type 0} → Option A → String → Result Refused A
required value reason = or_raise value (refused_incomplete reason)

-- More digits, or a larger exponent, than the portal represents.
unfoldable pub is_oversized : ℕ → ℤ → Bool
is_oversized coefficient exponent =
    ltb max_exact_digits (length (str coefficient)) || ltb max_exact_digits (abs exponent)

-- `_exact(value, reason)` of a value that is there
unfoldable pub exact_value : Decimal → String → Result Refused Decimal
exact_value (finite s c e) reason =
    if is_oversized c e
    then err (refused_incomplete "numeric_representation_unsupported")
    else ok (finite s c e)
exact_value nonfinite reason = err (refused_incomplete reason)

unfoldable pub exact : Option Decimal → String → Result Refused Decimal
unfolding exact_value
exact value reason = required value reason >>= λ result. exact_value result reason

-- The branches of `_minor_units` on `int(parts.exponent) + scale`.
unfoldable pub shifted_units : ℕ → ℤ → Result Refused ℕ
shifted_units coefficient (pos e) = ok (coefficient * 10 ^ e)
shifted_units coefficient (negsuc e) =
    if coefficient % 10 ^ (e + 1) == 0
    then ok (coefficient / 10 ^ (e + 1))
    else err (refused_incomplete "money_scale_mismatch")

unfoldable pub units_of : Decimal → ℕ → Result Refused ℤ
unfolding shifted_units
units_of (finite sign coefficient exponent) scale = do
  units ← shifted_units coefficient (exponent +ℤ pos scale)
  ok (signed sign units)
units_of nonfinite scale = err (refused_incomplete "money_invalid")

unfoldable pub minor_units : Decimal → ℕ → Result Refused ℤ
unfolding exact_value units_of
minor_units value scale = do result ← exact_value value "money_invalid"; units_of result scale

abbrev pub xor_sign : Bool → Bool → Bool
xor_sign true b = not b
xor_sign false b = b

-- `_multiply`: called on values that `_exact` has passed.
unfoldable pub multiply : Decimal → Decimal → Result Refused Decimal
unfolding exact_value
multiply (finite s c e) (finite t d f) =
    exact_value (finite (xor_sign s t) (c * d) (e +ℤ f)) "money_invalid"
multiply _ _ = err (refused_incomplete "money_invalid")

-- `value == value.to_integral_value()`
unfoldable pub is_integral : Decimal → Bool
is_integral (finite s c (pos e)) = true
is_integral (finite s c (negsuc e)) = c % 10 ^ (e + 1) == 0
is_integral nonfinite = false

-- `int(value)`
unfoldable pub to_int : Decimal → ℤ
to_int (finite s c (pos e)) = signed s (c * 10 ^ e)
to_int (finite s c (negsuc e)) = signed s (c / 10 ^ (e + 1))
to_int nonfinite = pos 0

abbrev pub zero_decimal : Decimal
zero_decimal = finite false 0 (pos 0)

-- `_quantity_bounds` on the service's two multiplicators.
unfoldable pub quantity_bounds : Option Decimal → Option Decimal → Result Refused (ℤ × ℤ)
unfolding exact dec_lt is_integral to_int
quantity_bounds min_multiplicator max_multiplicator = do
  minimum ← exact min_multiplicator "commercial_minimum_unknown"
  maximum ← exact max_multiplicator "commercial_maximum_unknown"
  raise_if (dec_lt minimum zero_decimal || dec_lt maximum minimum)
      (refused_incomplete "commercial_bounds_invalid")
  raise_if (not (is_integral minimum) || not (is_integral maximum))
      (refused_not_sellable "commercial_quantity_not_integer")
  ok (to_int minimum, to_int maximum)
