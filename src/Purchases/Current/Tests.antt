-- ===== src/Purchases/Current/Tests.antt =====
-- The current purchase on the sample tables.
use payments_portal.Store.{Outcome}
use payments_portal.Purchases.Current.Held.{is_held_product, IsCurrent, current_purchase-IsCurrent}
use payments_portal.Purchases.Current.{current_purchase, held_snapshot, Outcome}
use payments_portal.Base.{ok, some, refl, ◌≡◌, All, ℕ, ◌∷◌, true, []}
use payments_portal.Purchases.Samples.{program, initial, the_purchase}

current_purchase-initial : current_purchase (ok 1) (80 ∷ []) initial ≡ ok (some the_purchase)
unfolding program current_purchase held_snapshot
current_purchase-initial = refl

initial-holds : All (λ h. is_held_product initial h ≡ true) initial.holds
unfolding program
initial-holds = (refl, tt)

current_purchase-IsCurrent_example :
    (user : ℕ) × (◌≡◌ {A = Outcome ℕ} (ok 1) (ok user))
    × IsCurrent initial user (80 ∷ []) (some the_purchase)
current_purchase-IsCurrent_example =
    current_purchase-IsCurrent (ok 1) (80 ∷ []) initial initial-holds current_purchase-initial
