-- ===== src/Lib.antt =====
-- The payments portal's purchase core: the part of apps/api/app that creates an agreement and a
-- subscription at a billing provider which offers no idempotent create, so that no request may be
-- sent twice and nothing that may have been sent may be forgotten; and the part that turns the
-- provider's tariff into an offer with exact amounts, or refuses it.
--
-- Parts and files.
--   Base: Boolean tests, lists, results of fallible code, texts and integers over the native
--     numbers. A Python `str` is a list of character codes.
--   Store: the rows and queries of the billing tables (models/billing_purchase.py,
--     billing_operations.py, billing_subscriptions.py, infrastructure/queries/purchases.py and
--     billing_customers.py). The database is a record of lists of rows with the columns that the
--     transactions read or write. A UUID is a number, an instant a number of seconds.
--   Customers.Open, Reviews, Scope: `CustomerOpen` of domains/billing/contracts.py with the snapshot
--     that shows it, domains/billing/customer_reviews.py, and customer_scope.py with its queries.
--   Customers.Reserve, Send, Ends, Read, Overdue: domains/billing/customers.py, one module for
--     `reserve_customer`, for the claim of a send and its receipt, for the ways that a send ends
--     (`record_customer_create_failure`, `release_unsent_claim`, `finish_customer_attempt`), for
--     `apply_customer_read` and `recheck_widget_session`, and for `escalate_overdue_customers`.
--   Customers.Slot, Edits, Steps: a customer's row with its create operation and recovery item, how
--     a transaction writes it, and the steps that it may take, as a relation between its versions.
--   Customers.Run: sequences of these transactions.
--   Commerce: exact decimals and the records of an offer (integrations/lbx/offer_values.py,
--     domains/catalog/commercial_offer.py and product_link.py).
--   Offers: from the provider's tariff objects to an offer (integrations/lbx/dto.py,
--     selected_offer.py, discounts.py, current_offer.py): Prices for the price on a date, Discounts,
--     Facts and Normalizer for `normalize_current_offer` and `read_current_offer`, and Proofs for
--     `prove_agreement` and `prove_subscription` (integrations/lbx/financial.py).
--   Preflight: infrastructure/preflight.py, which bounds how many reads of outer sources run at once.
--     Budgets for the deadlines, Admission and Sources for the sections of an operation and of its
--     source that the event loop runs without a pause, Admission.Loop for any sequence of them; Sound
--     for what each of them keeps.
--   Purchases.Contracts, Purchases.Snapshot: domains/purchases/contracts.py and the functions of
--     service.py that read stored rows back (`accepted`, `_operation`, `_snapshot`).
--   Purchases.Locking: the reads, locks and rows that the transactions of financial.py share.
--   Purchases.Claim, Recovery, Changed, Bind, Escalate: domains/purchases/financial.py, one module
--     for `claim_financial`, for `proven_not_sent`, `record_receipt` and `financial_pending`, for
--     `changed_unsent_terms`, for `bind_financial` and for `escalate_overdue_financial`.
--   Purchases.Inventory: domains/purchases/inventory.py and `customer_for_purchase` of service.py.
--   Purchases.Current: `current_purchase` of service.py.
--   Purchases.Run: sequences of these transactions: what two claims in them may send, what becomes of
--     an operation and of its recorded receipt, and what the overdue batch counts.
--   Purchases.Evolution: how one operation may change, as a relation between its versions.
--   Purchases.Stale: what each of these transactions does under a stale fence.
--   The modules named Samples and Tests: sample rows, and runs of the code on them.
--
-- A transaction is a function from the tables to a refusal or to the tables behind its commit, with
-- its moment as an argument: the time, the values of `uuid4()` and whether the row locks are
-- granted. A refusal rolls back. All the transactions of a user lock the user's row first and the
-- database makes them wait for each other, so concurrent callers are a sequence of transactions with
-- snapshots of any age; a stale snapshot is an argument, it is not read again. Sessions do not flush
-- before a query, so uniqueness is checked where the code flushes or commits. `bind_financial` and
-- `apply_customer_read` have a second transaction for a conflict, at a moment of its own, and their
-- results carry the tables also where they raise; so do the overdue batches, which keep what they had
-- committed.
--
-- The admission of reads lives in one event loop: a section of a coroutine between two awaits is one
-- step, and what the loop may run next is any of them. An operation has one number with its budget
-- and its future; asyncio's futures and tasks are as documented, and a section reads the clock once.
--
-- Recursion is structural, over lists of rows, operations, transactions and queues. Only the decimal
-- digits of a number (Base.Texts) recurse on fuel, of which they get one more than the number; reading
-- the digits back gives the number, so that is enough.
--
-- What `authenticate` makes of a token is an argument of a claim, a user or a refusal. The lease of a
-- customer's send is the sum of two timeouts, here whole seconds. New rows take the values of
-- `uuid4()` and of the token generator from an argument, and a value that is taken breaks a
-- constraint. JSON values that pydantic validates are records; a candidate identity that is a list or
-- an object is one value apart. The digest of an offer's terms is an argument, and so are the
-- provider's answers, which have passed validation. The deadline of a reading (`budget.check()`) is left out: it ends a reading and
-- decides nothing else. Not modelled: the provider's HTTP calls, routers, command line, identity, legal
-- documents, catalog publication, the acceptance of a purchase (`pin_purchase`), the customer
-- diagnostics, and the web application.
pub mod Base
pub mod Commerce
pub mod Store
pub mod Offers
pub mod Customers
pub mod Preflight
pub mod Purchases
