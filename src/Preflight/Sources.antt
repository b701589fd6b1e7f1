-- ===== src/Preflight/Sources.antt =====
-- The sources of an admission (apps/api/app/infrastructure/preflight.py): `run`, `_source_done`,
-- `protect_source_cleanup`, `_cancel_source` and `aclose`, as far as they run without a pause.
use payments_portal.Base.{
  ℕ, Bool, true, List, [], ◌∷◌, ◌++◌, not, ◌&&◌, ◌||◌, ◌+◌, ◌==◌, any, select, if◌then◌else◌, ok,
  err, raise_if,
}
use payments_portal.Preflight.Sets.{elem, add, discard, is_empty}
use payments_portal.Preflight.Budgets.{
  Budget, Attempt, check_budget, saturated, closed, cleanup_pending, must_be_counted_source,
}
use payments_portal.Preflight.Admission.{
  Waiter, Admission, put, is_done, release_if_finished, refused,
}

-- `run`, up to its first await: the number of the source's task.
unfoldable pub start : ℕ → ℕ → Admission → Attempt ℕ × Admission
start now b s = elim (check_budget now s.is_closed (s.budgets b)) [
  | err e ↦ (err e, s)
  | ok passed ↦
      if not (s.budgets b).is_admitted || not (is_empty (s.budgets b).tasks)
      then (err saturated, s)
      else (
        ok s.next_number,
        record s {
          next_number = s.next_number + 1;
          budgets =
              put b (record (s.budgets b) { tasks = add s.next_number (s.budgets b).tasks })
                s.budgets;
          due = (b, s.next_number) ∷ s.due;
        },
      )
]

abbrev pub without_task : ℕ → Budget → Budget
without_task t budget = record budget { tasks = discard t budget.tasks }

-- The `finally` of `run`.
unfoldable pub forget : ℕ → ℕ → Admission → Admission
forget b t s =
    if s.stopped t then record s { budgets = put b (without_task t (s.budgets b)) s.budgets } else s

abbrev pub is_call : ℕ → ℕ → ℕ × ℕ → Bool
is_call b t call = (call.0 == b) && (call.1 == t)

-- `_source_done`
unfoldable pub source_done : ℕ → ℕ → ℕ → Admission → Admission
source_done now b t s = release_if_finished now b (record s {
  due = select (λ call. not (is_call b t call)) s.due;
  budgets =
      put b
        (record (without_task t (s.budgets b)) {
          cleanup_tasks = discard t (s.budgets b).cleanup_tasks;
        })
        s.budgets;
})

-- `protect_source_cleanup`: whether the task was protected already, and its `finally`.
unfoldable pub protect : ℕ → ℕ → Admission → Attempt Bool × Admission
protect b t s =
    if elem t (s.budgets b).tasks
    then (
      ok (elem t (s.budgets b).cleanup_tasks),
      record s {
        budgets =
            put b (record (s.budgets b) { cleanup_tasks = add t (s.budgets b).cleanup_tasks })
              s.budgets;
      },
    )
    else (err must_be_counted_source, s)

unfoldable pub unprotect : ℕ → ℕ → Bool → Admission → Admission
unprotect b t already s = if already then s else record s {
  budgets =
      put b (record (s.budgets b) { cleanup_tasks = discard t (s.budgets b).cleanup_tasks })
        s.budgets;
}

-- `_cancel_source`: a second request changes nothing that is kept here.
unfoldable pub cancel_source : Budget → ℕ → (ℕ → Bool) → ℕ → Bool
cancel_source budget t asked =
    if not (elem t budget.cleanup_tasks) && not (asked t) then put t true asked else asked

unfoldable pub cancel_sources : Budget → List ℕ → (ℕ → Bool) → ℕ → Bool
cancel_sources budget [] asked = asked
cancel_sources budget (t ∷ tasks) asked = cancel_sources budget tasks (cancel_source budget t asked)

unfoldable pub cancel_active : (ℕ → Budget) → List ℕ → (ℕ → Bool) → ℕ → Bool
cancel_active budgets [] asked = asked
cancel_active budgets (b ∷ active) asked =
    cancel_active budgets active (cancel_sources (budgets b) (budgets b).tasks asked)

-- The futures that `aclose` takes from the queue.
unfoldable pub refuse_waiters : List ℕ → (ℕ → Waiter) → ℕ → Waiter
refuse_waiters [] waiters = waiters
refuse_waiters (b ∷ queue) waiters =
    refuse_waiters queue (if is_done (waiters b) then waiters else put b (refused closed) waiters)

-- `aclose`, up to its await.
unfoldable pub aclose : Admission → Admission
aclose s = record s {
  is_closed = true;
  waiting = [];
  waiters = refuse_waiters s.waiting s.waiters;
  cancelling = cancel_active s.budgets s.active s.cancelling;
}

abbrev tasks_of : (ℕ → Budget) → List ℕ → List ℕ
tasks_of budgets [] = []
tasks_of budgets (b ∷ active) = (budgets b).tasks ++ tasks_of budgets active

-- What `aclose` waits for, and what it raises when the wait is over.
unfoldable pub closing_tasks : Admission → List ℕ
closing_tasks s = tasks_of s.budgets s.active

unfoldable pub closing_result : List ℕ → Admission → Attempt (Unit {0})
closing_result tasks s = raise_if (any (λ t. not (s.stopped t)) tasks) cleanup_pending
