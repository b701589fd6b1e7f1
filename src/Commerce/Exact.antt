-- ===== src/Commerce/Exact.antt =====
-- Money is exact: the minor units of an amount are the amount, or the amount is refused.
use payments_portal.Base.Int.{ℤ, pos_part, neg_part, pos, negsuc, ◌+ℤ◌}
use payments_portal.Base.{
  ℕ, ◌≡◌, ok, ◌↔◌, ◌*◌, ◌^◌, arith, ◌<◌, ◌%◌, ◌/◌, ap, ◌+◌, Bool, false, true, >>=-eq-ok, ◌∙◌, refl,
  Result,
}
use native.Mathlib.Nat.{div-add-mod', mul-div_cancel, mul-mod_left, one-le-pow}
use payments_portal.Commerce.Decimals.{
  finite, Refused, is_oversized, exact_value, minor_units, units_of, shifted_units, signed,
}

-- The quotient is exact where the remainder is zero, and only there.
exact_quotient : (c n d : ℕ) → 0 < d → ((c % d ≡ 0) × (c / d ≡ n)) ↔ (c ≡ n * d)
exact_quotient c n d positive = (
  (λ (even, e). omega (arith, ap (λ q. q * d) e, even, div-add-mod' c d)),
  (λ e. (rw e (mul-mod_left n d), rw e (mul-div_cancel n positive))),
)

shifted_units_iff :
    (c n : ℕ) (k : ℤ) → (shifted_units c k ≡ ok n) ↔ (c * 10 ^ pos_part k ≡ n * 10 ^ neg_part k)
unfolding shifted_units
shifted_units_iff c n (pos p) = ((λ h. ground arith), (λ h. ground arith))
shifted_units_iff c n (negsuc p) =
    let (there, back) = exact_quotient c n (10 ^ (p + 1)) (one-le-pow (p + 1) 10 (omega arith)) in
    ((λ h. ground (arith, there)), (λ h. ground (arith, back)))

signed-injective : (s : Bool) (a b : ℕ) → signed s a ≡ signed s b → a ≡ b
signed-injective true a b h = ground arith
signed-injective false a b h = ground arith

ok_ℤ-injective : {a b : ℤ} → ◌≡◌ {A = Result Refused ℤ} (ok a) (ok b) → a ≡ b
ok_ℤ-injective h = ground arith

-- An amount whose digits and exponent the portal can represent has n minor units of a scale
-- exactly where its digits, scaled by ten to its exponent and to the scale, are n, so no amount is
-- ever rounded.
pub minor_units_iff :
    (s : Bool) (c : ℕ) (e : ℤ) (scale n : ℕ)
    → is_oversized c e ≡ false
    → (minor_units (finite s c e) scale ≡ ok (signed s n))
      ↔ (c * 10 ^ pos_part (e +ℤ pos scale) ≡ n * 10 ^ neg_part (e +ℤ pos scale))
unfolding minor_units exact_value units_of
minor_units_iff s c e scale n fits =
    let (there, back) = shifted_units_iff c n (e +ℤ pos scale) in
    (
      (λ h.
          let (units, is_units, h1) =
            >>=-eq-ok (shifted_units c (e +ℤ pos scale)) (λ units. ok (signed s units))
              (rw fits at h) in
          there (is_units ∙ ap (λ k. ok k) (signed-injective s units n (ok_ℤ-injective h1)))),
      (λ h. rw (fits, back h) refl),
    )
