-- ===== src/Purchases.antt =====
-- apps/api/app/domains/purchases: the financial create operations of an accepted purchase.
pub mod Contracts
pub mod Snapshot
pub mod Locking
pub mod Claim
pub mod Recovery
pub mod Changed
pub mod Bind
pub mod Escalate
pub mod Inventory
pub mod Current
pub mod Evolution
pub mod Stale
mod Samples
mod Tests
pub mod Run
