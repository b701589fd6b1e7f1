-- ===== src/Customers.antt =====
-- apps/api/app/domains/billing: the one customer create operation of an account, from the reserved
-- slot to the bound provider identity.
pub mod Open
pub mod Reviews
pub mod Scope
pub mod Reserve
pub mod Send
pub mod Ends
pub mod Read
pub mod Overdue
pub mod Slot
pub mod Edits
pub mod Steps
pub mod Run
mod Samples
mod Tests
