-- ===== src/Store.antt =====
-- The tables that the billing and purchase transactions read and write
-- (apps/api/app/models/billing_purchase.py, billing_operations.py, billing_subscriptions.py), as a
-- record of lists of rows, with the queries of apps/api/app/infrastructure/queries.
mod Errors
mod Rows
pub mod Tables
mod Queries
mod States
pub use Errors.*
unfoldable pub use Rows.*
unfoldable pub use Queries.*
pub use States.*
