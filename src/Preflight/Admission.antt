-- ===== src/Preflight/Admission.antt =====
-- `PreflightAdmission` and its operations, as far as the event loop runs them without
-- a pause: between two awaits nothing else runs, and the clock is read once. An operation, its budget
-- and the future that it may wait for have one number. asyncio is what its documentation says: a
-- future is set once, and a task that stops has its callback called later.
pub mod Loop
use payments_portal.Base.{
  ◌>>=◌, ◌>>◌, ℕ, Bool, true, false, Option, none, some, List, [], ◌∷◌, ◌++◌, not, ◌&&◌, ◌||◌, ◌+◌,
  ◌==◌, ltb, leb, none_or, any, select, length, if◌then◌else◌, Result, ok, err, raise_if,
}
use payments_portal.Preflight.Sets.{elem, add, discard, remove, is_empty}
use payments_portal.Preflight.Budgets.{
  Policy, Budget, PreflightError, Attempt, new_budget, check_budget, deadline_exceeded, saturated,
  closed, cleanup_pending, cannot_cross_event_loops, must_be_counted_source,
}

-- A future of the queue: `done()` is false for the first.
pub data Waiter : Type 0 where
  still_waits granted : Waiter
  refused : PreflightError → Waiter

-- The fields of the owner, the budgets and futures by number, and what asyncio keeps of the tasks:
-- those asked to stop, those stopped, and the callbacks `_source_done` that are due.
pub record Admission : Type 0 where
  pub policy : Policy
  pub is_closed : Bool
  pub active : List ℕ
  pub waiting : List ℕ
  pub event_loop : Option ℕ
  pub next_number : ℕ
  pub budgets : ℕ → Budget
  pub waiters : ℕ → Waiter
  pub cancelling : ℕ → Bool
  pub stopped : ℕ → Bool
  pub due : List (ℕ × ℕ)

-- `__init__`: before the first entry there is no budget, future or task; these values are read by
-- nothing.
abbrev pub new_admission : Policy → Admission
new_admission p = record {
  policy = p;
  is_closed = false;
  active = [];
  waiting = [];
  event_loop = none;
  next_number = 0;
  budgets = λ i. record (new_budget 0 p) { is_finished = true };
  waiters = λ i. granted;
  cancelling = λ i. false;
  stopped = λ i. false;
  due = [];
}

abbrev pub put : {A : Type 0} → ℕ → A → (ℕ → A) → ℕ → A
put k new old i = if i == k then new else old i

-- `asyncio.Future.done`
abbrev pub is_done : Waiter → Bool
is_done still_waits = false
is_done granted = true
is_done (refused e) = true

abbrev pub resolve : ℕ → Waiter → Admission → Admission
resolve b w s = record s { waiters = put b w s.waiters }

-- `_activate`
abbrev pub activate : ℕ → Admission → Admission
activate b s = record s {
  budgets = put b (record (s.budgets b) { is_admitted = true }) s.budgets;
  active = add b s.active;
}

-- What the loop of `_release` does with the operation that it has taken from the queue.
unfoldable pub serve : ℕ → ℕ → Admission → Admission
serve now b s =
    if is_done (s.waiters b)
    then s
    else if leb (s.budgets b).work_deadline now
    then resolve b (refused deadline_exceeded) s
    else resolve b granted (activate b s)

-- The loop.
unfoldable pub release_loop : ℕ → List ℕ → Admission → Admission
release_loop now [] s = record s { waiting = [] }
release_loop now (b ∷ queue) s =
    if not s.is_closed && ltb (length s.active) s.policy.max_active
    then release_loop now queue (serve now b s)
    else record s { waiting = b ∷ queue }

-- `_release`
unfoldable pub release : ℕ → ℕ → Admission → Admission
release now b s = release_loop now s.waiting (record s { active = discard b s.active })

-- `_release_if_finished`
unfoldable pub release_if_finished : ℕ → ℕ → Admission → Admission
release_if_finished now b s =
    if (s.budgets b).is_finished && ((s.budgets b).is_admitted && is_empty (s.budgets b).tasks)
    then release now b
        (record s { budgets = put b (record (s.budgets b) { is_admitted = false }) s.budgets })
    else s

-- The `finally` of `operation`; an operation that has not waited is not in the queue.
unfoldable pub finish : ℕ → ℕ → Admission → Admission
finish now b s = release_if_finished now b (record s {
  waiting = remove b s.waiting;
  budgets = put b (record (s.budgets b) { is_finished = true }) s.budgets;
})

pub data Entry : Type 0 where
  enters_now queues : Entry

-- `budget.check()` of an operation: it goes on, or leaves.
unfoldable pub checked : ℕ → ℕ → Entry → Admission → Attempt Entry × Admission
checked now b entry s = elim (check_budget now s.is_closed (s.budgets b)) [
  | ok passed ↦ (ok entry, s)
  | err e ↦ (err e, finish now b s)
]

-- The new operation takes a slot, joins the queue or is refused.
unfoldable pub admit : ℕ → ℕ → Admission → Attempt Entry × Admission
admit now b s =
    if ltb (length s.active) s.policy.max_active && is_empty s.waiting
    then checked now b enters_now (activate b s)
    else if leb s.policy.max_waiting (length s.waiting)
    then (err saturated, finish now b s)
    else checked now b queues
        (record s { waiters = put b still_waits s.waiters; waiting = s.waiting ++ (b ∷ []) })

abbrev pub with_budget : ℕ → ℕ → Admission → Admission
with_budget now loop s = record s {
  event_loop = some loop;
  next_number = s.next_number + 1;
  budgets = put s.next_number (new_budget now s.policy) s.budgets;
}

-- `operation`, up to its first await or to its body.
unfoldable pub enter : ℕ → ℕ → Admission → Attempt Entry × Admission
enter now loop s =
    if s.is_closed
    then (err closed, s)
    else if not (none_or (λ l. l == loop) s.event_loop)
    then (err cannot_cross_event_loops, s)
    else admit now s.next_number (with_budget now loop s)

-- `operation` behind `wait_for`.
unfoldable pub resume : ℕ → ℕ → Waiter → Admission → Attempt Entry × Admission
resume now b still_waits s = (ok queues, s)
resume now b granted s = checked now b enters_now s
resume now b (refused e) s = (err e, finish now b s)

unfoldable pub wake : ℕ → ℕ → Admission → Attempt Entry × Admission
wake now b s = resume now b (s.waiters b) s

-- The timeout of `wait_for`, or the caller's cancellation, ends an open future.
unfoldable pub give_up : PreflightError → ℕ → Admission → Admission
give_up e b s = if is_done (s.waiters b) then s else resolve b (refused e) s
