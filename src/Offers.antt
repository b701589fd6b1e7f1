-- ===== src/Offers.antt =====
-- apps/api/app/integrations/lbx: from the provider's tariff objects to an offer, or a refusal.
pub mod Provider
pub mod Prices
pub mod Discounts
pub mod Facts
pub mod Normalizer
pub mod Proofs
mod Samples
mod Tests
