-- ===== src/Purchases/Inventory/Tests.antt =====
-- Runs on the sample portal with two purchases.
use payments_portal.Base.{◌∷◌, [], str}
use payments_portal.Purchases.Samples.{initial, the_purchase, moment}
use payments_portal.Purchases.Inventory.Samples.{
  inventory_db, other_purchase, the_customer, named, usable,
}
use payments_portal.Purchases.Inventory.Usable.{IsUsable, customer_for_purchase-IsUsable}
use payments_portal.Purchases.Inventory.Owner.{Owns, other_inventory_purchase-Owns}

other_inventory_purchase-Owns_example :
    Owns inventory_db the_purchase other_purchase (str 70) (str 60)
other_inventory_purchase-Owns_example =
    other_inventory_purchase-Owns (moment 1000 40) inventory_db the_purchase other_purchase 70 60
      named

customer_for_purchase-IsUsable_example : IsUsable initial (79 ∷ []) the_purchase the_customer
customer_for_purchase-IsUsable_example =
    customer_for_purchase-IsUsable (moment 1000 40) initial (79 ∷ []) the_purchase usable
