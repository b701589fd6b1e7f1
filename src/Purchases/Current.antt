-- ===== src/Purchases/Current.antt =====
-- `current_purchase` of apps/api/app/domains/purchases/service.py: the purchase that holds a product.
pub mod Held
mod Tests
use payments_portal.Base.{ℕ, Option, none, some, ◌>>=◌, or_raise, ok, Text}
use payments_portal.Store.{Db, Outcome, hold, owned, attribute_error}
use payments_portal.Purchases.Contracts.{Purchase}
use payments_portal.Purchases.Snapshot.{snapshot}

-- `_snapshot` of the held purchase, which is an attribute of `None` where the user does not own it.
unfoldable pub held_snapshot : Db → ℕ → ℕ → Outcome (Option Purchase)
held_snapshot db user purchase_id = do
  row ← or_raise (owned db user purchase_id) attribute_error
  purchase ← snapshot db row
  ok (some purchase)

-- `current_purchase`
unfoldable pub current_purchase : Outcome ℕ → Text → Db → Outcome (Option Purchase)
current_purchase session product_id db = do
  user ← session
  elim (hold db user product_id) [
    | none ↦ ok none
    | some scope ↦ held_snapshot db user scope.purchase_intent_id
  ]
