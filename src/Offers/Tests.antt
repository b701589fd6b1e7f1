-- ===== src/Offers/Tests.antt =====
-- Runs of the normalizer on the sample tariff.
use payments_portal.Offers.Proofs.Exactly.{IsAgreement, prove_subscription_iff, prove_agreement_iff}
use payments_portal.Offers.Proofs.Parts.{IsSubscription}
use payments_portal.Offers.Proofs.{prove_agreement, prove_subscription}
use payments_portal.Offers.Normalizer.Current.{normalize_current_offer}
use Prim.Native.String.{String}
use payments_portal.Commerce.Exact.{minor_units_iff}
use payments_portal.Base.Int.{negsuc, pos_part, ◌+ℤ◌, pos, neg_part}
use payments_portal.Base.{◌≡◌, false, Result, some, ok, none, ◌↔◌, ◌*◌, ◌^◌, refl, codes}
use payments_portal.Commerce.{minor_units, CurrentOffer, finite, signed}
use payments_portal.Offers.Prices.{applicable_price, service_listing}
use payments_portal.Offers.Prices.Interval.{Applies, applicable_price-Applies}
use payments_portal.Offers.Provider.{ReadSet}
use payments_portal.Offers.Samples.{
  pricing, digest, reads, configuration, prices, sold, price_from, a_period, sold-normal,
  the_selection, agreement_point, subscription_point,
}
use payments_portal.Offers.Normalizer.Sells.{
  Sells, normalize_current_offer-Sells, read_current_offer-Sells,
}

normalize_current_offer-Sells_example : Sells digest reads the_selection configuration 150 sold
normalize_current_offer-Sells_example =
    normalize_current_offer-Sells digest reads the_selection configuration 150 sold-normal

read_current_offer-Sells_example :
    (before reads' : ReadSet) × (first : CurrentOffer) × (◌≡◌ {A = Result String ReadSet}
      (ok reads)
      (ok before))
    × (◌≡◌ {A = Result String ReadSet} (ok reads) (ok reads'))
    × (normalize_current_offer digest before the_selection configuration 150 ≡ ok first)
    × (normalize_current_offer digest reads' the_selection configuration 150 ≡ ok sold)
    × Sells digest reads' the_selection configuration 150 sold
    × (first.fingerprint ≡ sold.fingerprint)
unfolding pricing
read_current_offer-Sells_example =
    read_current_offer-Sells digest (ok reads) (ok reads) the_selection configuration 150 refl

applicable_price-Applies_example :
    Applies service_listing prices 3 150 (price_from 50 100 (some 200)) (some 200)
unfolding pricing
applicable_price-Applies_example = applicable_price-Applies service_listing prices a_period 150 refl

-- On the day on which the next price starts, it holds.
applicable_price-next :
    applicable_price service_listing prices a_period 200 ≡ ok (price_from 51 200 none, none)
unfolding pricing
applicable_price-next = refl

-- 10.005 has no minor units of scale 2, so no number of them is right.
minor_units_iff_example :
    (minor_units (finite false 10005 (negsuc 2)) 2 ≡ ok (signed false 1000))
    ↔ (10005 * 10 ^ pos_part (negsuc 2 +ℤ pos 2) ≡ 1000 * 10 ^ neg_part (negsuc 2 +ℤ pos 2))
unfolding pricing
minor_units_iff_example = minor_units_iff false 10005 (negsuc 2) 2 1000 refl

prove_agreement_iff_example :
    (prove_agreement agreement_point 49 6 (codes "portal-1") ≡ ok tt)
    ↔ IsAgreement agreement_point 49 6 (codes "portal-1")
prove_agreement_iff_example = prove_agreement_iff agreement_point 49 6 (codes "portal-1")

prove_agreement-open : prove_agreement agreement_point 49 6 (codes "portal-1") ≡ ok tt
unfolding pricing
prove_agreement-open = refl

prove_subscription_iff_example :
    (prove_subscription (λ t. t) subscription_point 60 the_selection sold ≡ ok tt)
    ↔ IsSubscription (λ t. t) subscription_point 60 the_selection sold
prove_subscription_iff_example =
    prove_subscription_iff (λ t. t) subscription_point 60 the_selection sold

prove_subscription-created :
    prove_subscription (λ t. t) subscription_point 60 the_selection sold ≡ ok tt
unfolding pricing
prove_subscription-created = refl
