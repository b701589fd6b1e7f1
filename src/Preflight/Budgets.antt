-- ===== src/Preflight/Budgets.antt =====
-- `PreflightPolicy` and `PreflightBudget`: one deadline that is not renewed, and the times that a wait
-- may take. A monotonic time is a number of clock ticks.
use payments_portal.Base.{
  ℕ, Bool, false, List, [], ltb, leb, ◌&&◌, ◌+◌, ◌-◌, Result, ok, if◌then◌else◌, ◌||◌, ◌>>◌,
  raise_if,
}

pub record Policy : Type 0 where
  pub total_timeout : ℕ
  pub cleanup_timeout : ℕ
  pub max_active : ℕ
  pub max_waiting : ℕ

-- The test of `__post_init__`: every number of ticks is finite.
unfoldable pub is_valid : Policy → Bool
is_valid p =
    (ltb 0 p.cleanup_timeout && ltb p.cleanup_timeout p.total_timeout)
    && ((leb 1 p.max_active && leb p.max_active 128) && leb p.max_waiting 128)

-- What an entry, a read or a shutdown raises; `cancelled` is the caller's own cancellation.
pub data PreflightError : Type 0 where
  deadline_exceeded saturated closed cleanup_pending cancelled : PreflightError
  cannot_cross_event_loops must_be_counted_source : PreflightError

abbrev pub Attempt : Type 0 → Type 0
Attempt A = Result PreflightError A

pub record Budget : Type 0 where
  pub deadline : ℕ
  pub work_deadline : ℕ
  pub is_admitted : Bool
  pub is_finished : Bool
  pub tasks : List ℕ
  pub cleanup_tasks : List ℕ

-- `__init__`
unfoldable pub new_budget : ℕ → Policy → Budget
new_budget now p = record {
  deadline = now + p.total_timeout;
  work_deadline = now + p.total_timeout - p.cleanup_timeout;
  is_admitted = false;
  is_finished = false;
  tasks = [];
  cleanup_tasks = [];
}

-- `check`
unfoldable pub check_budget : ℕ → Bool → Budget → Attempt (Unit {0})
check_budget now owner_closed budget = do
  raise_if (leb budget.work_deadline now) deadline_exceeded
  raise_if (owner_closed || budget.is_finished) closed

-- `remaining_seconds`
unfoldable pub remaining : ℕ → Bool → Budget → Attempt ℕ
remaining now owner_closed budget = do
  check_budget now owner_closed budget
  ok (budget.work_deadline - now)

abbrev minimum : ℕ → ℕ → ℕ
minimum a b = if leb a b then a else b

-- The wait of `_cancel_and_drain`.
unfoldable pub drain_time : ℕ → Policy → Budget → ℕ
drain_time now p budget = minimum p.cleanup_timeout (budget.deadline - now)
