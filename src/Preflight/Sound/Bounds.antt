-- ===== src/Preflight/Sound/Bounds.antt =====
-- What the invariant says of every admission that the event loop can reach.
use payments_portal.Base.{
  ℕ, ◌≡◌, ◌≤◌, ◌⊎◌, inl, inr, refl, true, false, List, [], ◌∷◌, any, length, arith, subst, sym, ap,
  ◌∙◌, ==_iff,
}
use payments_portal.Preflight.Sets.{elem}
use payments_portal.Preflight.Budgets.{Policy}
use payments_portal.Preflight.Admission.{Admission, new_admission}
use payments_portal.Preflight.Sources.{is_call}
use payments_portal.Preflight.Admission.Loop.{Section, perform_all}
use payments_portal.Preflight.Sound.{IsSound, has_due}
use payments_portal.Preflight.Sound.Runs.{perform_all-IsSound, new_admission-IsSound}
use payments_portal.Preflight.Sound.Owner.{perform_all-KeepsOwner}

pub record IsBounded (p : Policy) (s : Admission) : Type 0 where
  pub active_few : length s.active ≤ p.max_active
  pub waiting_few : length s.waiting ≤ p.max_waiting
  -- Nobody waits while a slot is free.
  pub no_idle_slot : (s.waiting ≡ []) ⊎ (length s.active ≡ p.max_active)
  -- A source that was started and has not stopped has its operation's slot to itself.
  pub slot_of_source :
      (b t : ℕ)
      → any (is_call b t) s.due ≡ true
      → s.stopped t ≡ false
      → (elem b s.active ≡ true) × ((s.budgets b).tasks ≡ t ∷ [])
  -- A slot is held by an operation that goes on, or by a task whose callback is still to come.
  pub no_lost_slot :
      (b : ℕ)
      → elem b s.active ≡ true
      → ((s.budgets b).is_finished ≡ false) ⊎ (has_due b s.due ≡ true)

only_one : (t : ℕ) (tasks : List ℕ) → elem t tasks ≡ true → length tasks ≤ 1 → tasks ≡ t ∷ []
only_one t [] e h = cc e
only_one t (x ∷ []) e h = ap (λ (y : ℕ). y ∷ []) ((==_iff x t).0 (ground (arith, e)))
only_one t (x ∷ (y ∷ tasks)) e h = ground (arith, h)

sound-IsBounded : (s : Admission) → IsSound s → IsBounded s.policy s
sound-IsBounded s h =
    let c = h.consistent in
    record {
      active_few = c.active_few;
      waiting_few = c.waiting_few;
      no_idle_slot = elim h.busy [
        | inl nobody ↦ inl nobody
        | inr full ↦ inr (omega (arith, c.active_few, full.1))
      ];
      slot_of_source = λ b t calls runs. elim (c.attached b t calls) [
        | inl over ↦ cc (over, runs)
        | inr there ↦
            (c.slots b ∙ c.occupied b t there, only_one t (s.budgets b).tasks there (c.single b))
      ];
      no_lost_slot = λ b there. c.held b refl (sym (c.slots b) ∙ there);
    }

-- Whatever the event loop runs after an admission is made, within its policy: the operations with a
-- slot and those in the queue are no more than allowed, nobody waits while a slot is free, a running
-- source has its operation's slot to itself, and a slot is held only by an operation that goes on or
-- by one with a callback of its tasks still to come.
pub perform_all-IsBounded :
    (p : Policy) (xs : List Section) → IsBounded p (perform_all xs (new_admission p))
perform_all-IsBounded p xs =
    let s = perform_all xs (new_admission p) in
    subst (λ q. IsBounded q s) (perform_all-KeepsOwner xs (new_admission p)).0
      (sound-IsBounded s (perform_all-IsSound xs (new_admission p) (new_admission-IsSound p)))
