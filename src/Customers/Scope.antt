-- ===== src/Customers/Scope.antt =====
-- apps/api/app/domains/billing/customer_scope.py, with its queries in infrastructure/queries/
-- billing_customers.py and commercial_mappings.py: the account under which a user may have a customer.
use payments_portal.Store.{
  Db, ProductHead, Customer, Outcome, billing_connection_conflict, billing_busy,
}
use payments_portal.Base.{
  ◌>>=◌, ◌>>◌, ℕ, Text, List, Bool, Option, map, any, some_and, select, is_some, ◌==◌, ok, is_none,
  find?, text_eq, ◌++◌, ◌||◌, ◌&&◌, ◌∷◌, not, if◌then◌else◌, all, err, [], raise_if,
}
use payments_portal.Customers.Open.{Configuration}

abbrev pub is_text : Text → Option Text → Bool
is_text t o = some_and (λ s. text_eq s t) o

-- `connection_accounts`: the set as a list that may repeat an account.
unfoldable pub connection_accounts : Db → Text → List Text
connection_accounts db origin =
    map (λ h. h.external_billing_account_id)
      (select (λ h. is_text origin h.provider_origin) db.heads)
    ++ map (λ c. c.external_billing_account_id)
        (select (λ c. is_text origin c.provider_origin) db.customers)

-- `connection_heads`
unfoldable pub connection_heads : Db → Configuration → List ProductHead
connection_heads db cfg =
    select
      (λ h.
        text_eq h.external_billing_account_id cfg.lbx_external_billing_account_id
        || (is_text cfg.lbx_provider_origin h.provider_origin
            || (is_none h.provider_origin
                && is_text h.external_billing_account_id cfg.lbx_legacy_credential_scope)))
      db.heads

-- A customer of the user elsewhere with an identity, or with the trace of a send.
abbrev pub has_history : Db → Customer → Bool
has_history db c =
    is_some c.provider_customer_id
    || any
        (λ o.
          (o.customer_id == c.customer_id)
          && (is_some o.unknown_since || is_some o.bound_external_object_id))
        db.operations

-- `foreign_customer`
unfoldable pub foreign_customer : Db → ℕ → Text → Bool
foreign_customer db user_id account =
    any
      (λ c.
        (c.user_id == user_id)
        && (not (text_eq c.external_billing_account_id account) && has_history db c))
      db.customers

-- The only account of the connection, or the configured one where it has none.
unfoldable pub one_account : List Text → Text → Outcome Text
one_account [] configured = ok configured
one_account (a ∷ others) configured =
    if all (λ b. text_eq b a) others then ok a else err billing_connection_conflict

-- A retained head whose origin is not proven, under another account.
abbrev pub is_unproven_head : Text → ProductHead → Bool
is_unproven_head account h =
    is_none h.provider_origin && not (text_eq h.external_billing_account_id account)

-- `customer_account`; `scope_busy` says that the lock of the connection is not granted.
unfoldable pub customer_account : Bool → Configuration → ℕ → Db → Outcome Text
customer_account scope_busy cfg user_id db = do
  raise_if scope_busy billing_busy
  account ←
      one_account (connection_accounts db cfg.lbx_provider_origin)
        cfg.lbx_external_billing_account_id
  raise_if (any (is_unproven_head account) (connection_heads db cfg)) billing_connection_conflict
  raise_if (foreign_customer db user_id account) billing_connection_conflict
  ok account

-- `customer_slot`
unfoldable pub customer_slot : Db → Text → ℕ → Option Customer
customer_slot db account user_id =
    find? (λ c. text_eq c.external_billing_account_id account && (c.user_id == user_id))
      db.customers
