-- ===== src/Commerce.antt =====
-- The commercial values of apps/api/app/domains/catalog/commercial_offer.py and product_link.py,
-- and the exact decimals of apps/api/app/integrations/lbx/offer_values.py.
mod Decimals
mod Data
pub mod Exact
unfoldable pub use Data.*
unfoldable pub use Decimals.*
