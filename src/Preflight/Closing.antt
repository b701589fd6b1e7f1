-- ===== src/Preflight/Closing.antt =====
-- `aclose` is final, refuses all who wait and asks no protected source to stop.
use payments_portal.Base.{
  if◌then◌else◌, ℕ, ◌≡◌, ◌⊎◌, inl, inr, err, refl, Bool, Bool-cases, true, false, List, [], ◌∷◌,
  ◌==◌, ==_iff, leb, arith, subst, sym, ap, ◌∙◌,
}
use payments_portal.Preflight.Sets.{elem}
use payments_portal.Preflight.Budgets.{
  Budget, PreflightError, check_budget, closed, deadline_exceeded,
}
use payments_portal.Preflight.Admission.{
  Admission, Waiter, still_waits, refused, is_done, put, enter,
}
use payments_portal.Preflight.Sources.{
  start, aclose, refuse_waiters, cancel_source, cancel_sources, cancel_active,
}
use payments_portal.Preflight.Admission.Loop.{Section, perform_all}
use payments_portal.Preflight.Sound.{IsSound}
use payments_portal.Preflight.Sound.Runs.{perform_all-IsSound, aclose-IsSound}
use payments_portal.Preflight.Sound.Owner.{perform_all-KeepsOwner}

refused_stays :
    (queue : List ℕ) (waiters : ℕ → Waiter) (b : ℕ)
    → waiters b ≡ refused closed
    → refuse_waiters queue waiters b ≡ refused closed
unfolding refuse_waiters
refused_stays [] waiters b h = h
refused_stays (x ∷ queue) waiters b h =
    refused_stays queue (if is_done (waiters x) then waiters else put x (refused closed) waiters) b
      (ground (arith, h))

waiters_refused :
    (queue : List ℕ) (waiters : ℕ → Waiter) (b : ℕ)
    → elem b queue ≡ true
    → waiters b ≡ still_waits
    → refuse_waiters queue waiters b ≡ refused closed
unfolding refuse_waiters
waiters_refused [] waiters b e h = cc e
waiters_refused (x ∷ queue) waiters b e h =
    let next = if is_done (waiters x) then waiters else put x (refused closed) waiters in
    elim (Bool-cases (x == b)) [
      | inl same ↦ refused_stays queue next b (
          subst
            (λ y.
              (if is_done (waiters y) then waiters else put y (refused closed) waiters) b
              ≡ refused closed)
            (sym ((==_iff x b).0 same)) (ground (arith, h)))
      | inr other ↦
          waiters_refused queue next b (ground (arith, e, other)) (ground (arith, other, h))
    ]

-- A task of an operation with a slot that is not in its protected cleanup.
abbrev pub IsOpenTask : (ℕ → Budget) → List ℕ → ℕ → Type 0
IsOpenTask budgets active t =
    (b : ℕ) × (elem b active ≡ true)
    × (elem t (budgets b).tasks ≡ true)
    × (elem t (budgets b).cleanup_tasks ≡ false)

sources_asked :
    (budget : Budget) (tasks : List ℕ) (asked : ℕ → Bool) (t : ℕ)
    → cancel_sources budget tasks asked t ≡ true
    → (asked t ≡ true) ⊎ ((elem t tasks ≡ true) × (elem t budget.cleanup_tasks ≡ false))
unfolding cancel_sources cancel_source
sources_asked budget [] asked t h = inl h
sources_asked budget (x ∷ tasks) asked t h =
    elim (sources_asked budget tasks (cancel_source budget x asked) t h) [
      | inr there ↦ inr (ground (arith, there.0), there.1)
      | inl before ↦ elim (Bool-cases (t == x)) [
        | inr other ↦ inl (ground (arith, before, other))
        | inl same ↦ elim (Bool-cases (asked t)) [
          | inl already ↦ inl already
          | inr not_yet ↦
              let e = (==_iff t x).0 same in
              inr (
                ground (arith, same),
                subst (λ y. elem y budget.cleanup_tasks ≡ false) (sym e)
                    (ground (arith, before, same, subst (λ y. asked y ≡ false) e not_yet, not_yet)),
              )
        ]
      ]
    ]

active_asked :
    (budgets : ℕ → Budget) (active : List ℕ) (asked : ℕ → Bool) (t : ℕ)
    → cancel_active budgets active asked t ≡ true
    → (asked t ≡ true) ⊎ IsOpenTask budgets active t
unfolding cancel_active
active_asked budgets [] asked t h = inl h
active_asked budgets (b ∷ active) asked t h =
    elim (active_asked budgets active (cancel_sources (budgets b) (budgets b).tasks asked) t h) [
      | inr (i, there, own, free) ↦ inr (i, ground (arith, there), own, free)
      | inl before ↦ elim (sources_asked (budgets b) (budgets b).tasks asked t before) [
        | inl already ↦ inl already
        | inr (own, free) ↦ inr (b, ground arith, own, free)
      ]
    ]

enter_closed :
    (now loop : ℕ) (s : Admission) → s.is_closed ≡ true → (enter now loop s).0 ≡ err closed
unfolding enter
enter_closed now loop s shut = simp (shut, enter) refl

check_closed :
    (now : ℕ) (budget : Budget)
    → (check_budget now true budget ≡ err closed)
      ⊎ (check_budget now true budget ≡ err deadline_exceeded)
unfolding check_budget
check_closed now budget = elim (Bool-cases (leb budget.work_deadline now)) [
  | inl late ↦ inr (ground (arith, late))
  | inr early ↦ inl (ground (arith, early))
]

start_refused :
    (now b : ℕ) (s : Admission) (e : PreflightError)
    → check_budget now s.is_closed (s.budgets b) ≡ err e
    → (start now b s).0 ≡ err e
unfolding start
start_refused now b s e h = rw (h, start) refl

start_closed :
    (now b : ℕ) (s : Admission)
    → s.is_closed ≡ true
    → ((start now b s).0 ≡ err closed) ⊎ ((start now b s).0 ≡ err deadline_exceeded)
start_closed now b s shut =
    let refuses : (e : PreflightError)
        → check_budget now true (s.budgets b) ≡ err e
        → (start now b s).0 ≡ err e =
      λ e h. start_refused now b s e (ap (λ c. check_budget now c (s.budgets b)) shut ∙ h) in
    elim (check_closed now (s.budgets b)) [
      | inl over ↦ inl (refuses closed over)
      | inr late ↦ inr (refuses deadline_exceeded late)
    ]

nobody_waits : (s : Admission) → IsSound s → s.is_closed ≡ true → s.waiting ≡ []
nobody_waits s h shut = elim h.busy [ inl nobody ↦ nobody | inr full ↦ cc (shut, full.0) ]

-- When a sound admission is closed, all who still wait are refused, and only tasks of operations
-- with a slot that are not in a protected cleanup are newly asked to stop. Whatever runs later,
-- nobody waits, every entry is refused as closed, and no operation starts a source.
pub aclose_is_final :
    (s : Admission) (xs : List Section)
    → IsSound s
    → let s' = perform_all xs (aclose s) in
      ((b : ℕ)
        → elem b s.waiting ≡ true
        → s.waiters b ≡ still_waits
        → (aclose s).waiters b ≡ refused closed)
      × ((t : ℕ)
          → (aclose s).cancelling t ≡ true
          → (s.cancelling t ≡ true) ⊎ IsOpenTask s.budgets s.active t)
      × (s'.waiting ≡ [])
      × ((now loop : ℕ) → (enter now loop s').0 ≡ err closed)
      × ((now b : ℕ)
          → ((start now b s').0 ≡ err closed) ⊎ ((start now b s').0 ≡ err deadline_exceeded))
unfolding aclose
aclose_is_final s xs h =
    let s' = perform_all xs (aclose s) in
    let shut : s'.is_closed ≡ true = (perform_all-KeepsOwner xs (aclose s)).1 refl in
    (
      λ b there waits. waiters_refused s.waiting s.waiters b there waits,
      λ t asked. active_asked s.budgets s.active s.cancelling t asked,
      nobody_waits s' (perform_all-IsSound xs (aclose s) (aclose-IsSound s h)) shut,
      λ now loop. enter_closed now loop s' shut,
      λ now b. start_closed now b s' shut,
    )
