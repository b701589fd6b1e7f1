-- ===== src/Preflight/Admission/Loop.antt =====
-- Any sequence of what the event loop runs.
use payments_portal.Base.{ℕ, Bool, true, List, [], ◌∷◌, any, ◌&&◌, ◌==◌, if◌then◌else◌}
use payments_portal.Preflight.Budgets.{PreflightError}
use payments_portal.Preflight.Admission.{Admission, put, enter, wake, finish, give_up}
use payments_portal.Preflight.Sources.{
  start, forget, source_done, is_call, protect, unprotect, cancel_source, aclose,
}

-- The sections of the operations, at a time where they read it. `stops` is a task that stops.
pub data Section : Type 0 where
  enters : (now loop : ℕ) → Section
  wakes : (now b : ℕ) → Section
  finishes : (now b : ℕ) → Section
  gives_up : PreflightError → ℕ → Section
  starts : (now b : ℕ) → Section
  stops : ℕ → Section
  forgets : (b t : ℕ) → Section
  calls_back : (now b t : ℕ) → Section
  protects : (b t : ℕ) → Section
  unprotects : (b t : ℕ) → Bool → Section
  cancels : (b t : ℕ) → Section
  closes : Section

-- Only a task that was started stops; a callback is called once it is due and its task has stopped.
unfoldable pub perform : Section → Admission → Admission
perform (enters now loop) s = (enter now loop s).1
perform (wakes now b) s = (wake now b s).1
perform (finishes now b) s = finish now b s
perform (gives_up e b) s = give_up e b s
perform (starts now b) s = (start now b s).1
perform (stops t) s =
    if any (λ call. call.1 == t) s.due then record s { stopped = put t true s.stopped } else s
perform (forgets b t) s = forget b t s
perform (calls_back now b t) s =
    if any (is_call b t) s.due && s.stopped t then source_done now b t s else s
perform (protects b t) s = (protect b t s).1
perform (unprotects b t already) s = unprotect b t already s
perform (cancels b t) s = record s { cancelling = cancel_source (s.budgets b) t s.cancelling }
perform closes s = aclose s

unfoldable pub perform_all : List Section → Admission → Admission
perform_all [] s = s
perform_all (x ∷ xs) s = perform_all xs (perform x s)
