-- ===== src/Customers/Steps/Sound.antt =====
-- The invariant of a slot.
use payments_portal.Customers.Open.{recovery_window}
use payments_portal.Customers.Run.{CustomerTransaction}
use payments_portal.Store.{is_bound_customer, is_bound, is_pending}
use payments_portal.Customers.Read.{bound_create}
use payments_portal.Base.{
  ℕ, Option, ◌≡◌, some, ◌+◌, false, subst, ◌⊎◌, is_some, sym, none, true, arith,
}
use payments_portal.Customers.Slot.{Create}
use payments_portal.Customers.Steps.{
  Step, bound_create, CustomerTransaction, rests, sends, is_pending, takes_receipt, notes_failure,
  takes_back, ends, refutes, goes_to_review, stays_unknown, takes_identity,
}

abbrev after_window : Option ℕ → Option ℕ
after_window none = none
after_window (some since) = some (since + recovery_window)

-- The slot and its create have one identity, which a bound one has; an operation that waits for its
-- first send has no history of one, and the window of a send closes two hours after it.
pub record IsSoundSlot (s : Create) : Type 0 where
  pub one_identity : s.customer.provider_customer_id ≡ s.operation.bound_external_object_id
  pub bound_slot :
      (is_bound_customer s.customer.binding_state ≡ false)
      ⊎ (is_some s.customer.provider_customer_id ≡ true)
  pub bound_create :
      (is_bound s.operation.operation_state ≡ false)
      ⊎ (is_some s.customer.provider_customer_id ≡ true)
  pub fresh : (is_pending s.operation.operation_state ≡ false) ⊎ (s.operation.unknown_since ≡ none)
  pub window : s.operation.unknown_recovery_deadline_at ≡ after_window s.operation.unknown_since

pub step-IsSoundSlot :
    {t : CustomerTransaction} {s s' : Create} → Step t s s' → IsSoundSlot s → IsSoundSlot s'
unfolding bound_create
step-IsSoundSlot {t} {s} {s'} (rests e) h = subst IsSoundSlot (sym e) h
step-IsSoundSlot {t} {s} {s'} (sends m cfg session expected _ _ e) h =
    subst IsSoundSlot (sym e) (ground (arith, h))
step-IsSoundSlot {t} {s} {s'} (takes_receipt m expected n _ takes e) h =
    subst IsSoundSlot (sym e) (ground (arith, h))
step-IsSoundSlot {t} {s} {s'} (notes_failure m http_status lbx_code reason e) h =
    subst IsSoundSlot (sym e) (ground (arith, h))
step-IsSoundSlot {t} {s} {s'} (takes_back m expected _ r e) h =
    subst IsSoundSlot (sym e) (ground (arith, h, r))
step-IsSoundSlot {t} {s} {s'} (ends m expected _ _ e) h =
    subst IsSoundSlot (sym e) (ground (arith, h))
step-IsSoundSlot {t} {s} {s'} (refutes m e) h = subst IsSoundSlot (sym e) (ground (arith, h))
step-IsSoundSlot {t} {s} {s'} (goes_to_review e) h = subst IsSoundSlot (sym e) (ground (arith, h))
step-IsSoundSlot {t} {s} {s'} (stays_unknown _ e) h = subst IsSoundSlot (sym e) (ground (arith, h))
step-IsSoundSlot {t} {s} {s'} (takes_identity m again expected provider outer_key _ r e) h =
    subst IsSoundSlot (sym e) (ground (arith, h, r))
