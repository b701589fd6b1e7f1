-- ===== src/Preflight/Sound/Owner.antt =====
-- The policy stays, and only `aclose` closes the admission.
use payments_portal.Base.{
  ℕ, ◌≡◌, refl, Bool, Result-cases, inl, inr, true, false, List, [], ◌∷◌, not, ◌&&◌, ◌||◌, ◌∙◌,
  arith, ltb, leb, length, any, ◌==◌, none_or,
}
use payments_portal.Preflight.Sets.{is_empty, discard}
use payments_portal.Preflight.Budgets.{check_budget, Attempt, Policy}
use payments_portal.Preflight.Admission.{
  Admission, Waiter, Entry, still_waits, granted, refused, put, serve, release_loop, release,
  release_if_finished, finish, checked, admit, enters_now, queues, with_budget, enter, resume, wake,
  give_up, activate,
}
use payments_portal.Preflight.Sources.{
  is_call, start, forget, source_done, protect, unprotect, aclose,
}
use payments_portal.Preflight.Admission.Loop.{
  Section, perform, perform_all, enters, wakes, finishes, gives_up, starts, stops, forgets,
  calls_back, protects, unprotects, cancels, closes,
}
use payments_portal.Preflight.Sound.{if-rule}

abbrev pub SameOwner : Admission → Admission → Type 0
SameOwner s' s = (s'.policy ≡ s.policy) × (s'.is_closed ≡ s.is_closed)

then_same : (a b c : Admission) → SameOwner c b → SameOwner b a → SameOwner c a
then_same a b c h g = (h.0 ∙ g.0, h.1 ∙ g.1)

serve-SameOwner : (now b : ℕ) (s : Admission) → SameOwner (serve now b s) s
unfolding serve
serve-SameOwner now b s = ground arith

release_loop-SameOwner :
    (now : ℕ) (queue : List ℕ) (s : Admission) → SameOwner (release_loop now queue s) s
unfolding release_loop
release_loop-SameOwner now [] s = (refl, refl)
release_loop-SameOwner now (b ∷ queue) s =
    if-rule (λ r. SameOwner r s) (not s.is_closed && ltb (length s.active) s.policy.max_active)
      (release_loop now queue (serve now b s)) (record s { waiting = b ∷ queue })
      (λ room.
        then_same s (serve now b s) (release_loop now queue (serve now b s))
          (release_loop-SameOwner now queue (serve now b s)) (serve-SameOwner now b s))
      (λ full. (refl, refl))

settled-SameOwner : (now b : ℕ) (s : Admission) → SameOwner (release_if_finished now b s) s
unfolding release_if_finished release
settled-SameOwner now b s =
    let given = record s {
      budgets = put b (record (s.budgets b) { is_admitted = false }) s.budgets;
      active = discard b s.active;
    } in
    if-rule (λ r. SameOwner r s)
      ((s.budgets b).is_finished && ((s.budgets b).is_admitted && is_empty (s.budgets b).tasks))
      (release_loop now s.waiting given) s (λ over. release_loop-SameOwner now s.waiting given)
      (λ held. (refl, refl))

finish-SameOwner : (now b : ℕ) (s : Admission) → SameOwner (finish now b s) s
unfolding finish
finish-SameOwner now b s = settled-SameOwner now b _

checked-SameOwner :
    (now b : ℕ) (entry : Entry) (s : Admission) → SameOwner (checked now b entry s).1 s
unfolding checked
checked-SameOwner now b entry s = elim (Result-cases (check_budget now s.is_closed (s.budgets b))) [
  | inl (tt, passed) ↦ simp (passed, checked) (refl, refl)
  | inr (e, over) ↦ simp (over, checked) (finish-SameOwner now b s)
]

admit-SameOwner : (now b : ℕ) (s : Admission) → SameOwner (admit now b s).1 s
unfolding admit
admit-SameOwner now b s =
    if-rule (λ (r : Attempt Entry × Admission). SameOwner r.1 s)
      (ltb (length s.active) s.policy.max_active && is_empty s.waiting)
      (checked now b enters_now (activate b s)) _
      (λ free. checked-SameOwner now b enters_now (activate b s))
      (λ taken.
        if-rule (λ (r : Attempt Entry × Admission). SameOwner r.1 s)
          (leb s.policy.max_waiting (length s.waiting)) _ _ (λ full. finish-SameOwner now b s)
          (λ room. checked-SameOwner now b queues _))

enter-SameOwner : (now loop : ℕ) (s : Admission) → SameOwner (enter now loop s).1 s
unfolding enter
enter-SameOwner now loop s =
    if-rule (λ (r : Attempt Entry × Admission). SameOwner r.1 s) s.is_closed _ _
      (λ shut. (refl, refl))
      (λ is_open.
        if-rule (λ (r : Attempt Entry × Admission). SameOwner r.1 s)
          (not (none_or (λ l. l == loop) s.event_loop)) _ _ (λ foreign. (refl, refl))
          (λ own. admit-SameOwner now s.next_number (with_budget now loop s)))

resume-SameOwner : (now b : ℕ) (w : Waiter) (s : Admission) → SameOwner (resume now b w s).1 s
unfolding resume
resume-SameOwner now b still_waits s = (refl, refl)
resume-SameOwner now b granted s = checked-SameOwner now b enters_now s
resume-SameOwner now b (refused e) s = finish-SameOwner now b s

start-SameOwner : (now b : ℕ) (s : Admission) → SameOwner (start now b s).1 s
unfolding start
start-SameOwner now b s = elim (Result-cases (check_budget now s.is_closed (s.budgets b))) [
  | inl (tt, passed) ↦
      simp (passed, start)
        (if-rule (λ (r : Attempt ℕ × Admission). SameOwner r.1 s)
          (not (s.budgets b).is_admitted || not (is_empty (s.budgets b).tasks)) _ _
          (λ unfit. (refl, refl)) (λ fit. (refl, refl)))
  | inr (e, over) ↦ simp (over, start) (refl, refl)
]

-- What any section leaves of the owner.
abbrev pub KeepsOwner : Admission → Admission → Type 0
KeepsOwner s' s = (s'.policy ≡ s.policy) × (s.is_closed ≡ true → s'.is_closed ≡ true)

owner_kept : {p' p : Policy} {c' c : Bool} → (p' ≡ p) × (c' ≡ c) → (p' ≡ p) × (c ≡ true → c' ≡ true)
owner_kept h = (h.0, λ shut. h.1 ∙ shut)

done-SameOwner : (now b t : ℕ) (s : Admission) → SameOwner (source_done now b t s) s
unfolding source_done
done-SameOwner now b t s = settled-SameOwner now b _

perform-KeepsOwner : (x : Section) (s : Admission) → KeepsOwner (perform x s) s
unfolding perform wake give_up forget protect unprotect aclose
perform-KeepsOwner (enters now loop) s = owner_kept (enter-SameOwner now loop s)
perform-KeepsOwner (wakes now b) s = owner_kept (resume-SameOwner now b (s.waiters b) s)
perform-KeepsOwner (finishes now b) s = owner_kept (finish-SameOwner now b s)
perform-KeepsOwner (gives_up e b) s = ground arith
perform-KeepsOwner (starts now b) s = owner_kept (start-SameOwner now b s)
perform-KeepsOwner (stops t) s = ground arith
perform-KeepsOwner (forgets b t) s = ground arith
perform-KeepsOwner (calls_back now b t) s =
    if-rule (λ r. KeepsOwner r s) (any (is_call b t) s.due && s.stopped t) (source_done now b t s) s
      (λ calls. owner_kept (done-SameOwner now b t s)) (λ other. (refl, λ shut. shut))
perform-KeepsOwner (protects b t) s = ground arith
perform-KeepsOwner (unprotects b t already) s = ground arith
perform-KeepsOwner (cancels b t) s = (refl, λ shut. shut)
perform-KeepsOwner closes s = (refl, λ shut. refl)

pub perform_all-KeepsOwner : (xs : List Section) (s : Admission) → KeepsOwner (perform_all xs s) s
unfolding perform_all
perform_all-KeepsOwner [] s = (refl, λ shut. shut)
perform_all-KeepsOwner (x ∷ xs) s =
    let first = perform-KeepsOwner x s in
    let later = perform_all-KeepsOwner xs (perform x s) in
    (later.0 ∙ first.0, λ shut. later.1 (first.1 shut))
