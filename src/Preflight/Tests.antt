-- ===== src/Preflight/Tests.antt =====
-- One slot and one place in the queue.
use payments_portal.Base.{
  ℕ, ◌≡◌, ◌≤◌, ◌<◌, ◌⊎◌, ok, err, refl, true, false, List, [], ◌∷◌, ◌++◌, length, arith, ◌+◌, ◌-◌,
}
use payments_portal.Preflight.Sets.{elem, add, discard, remove}
use payments_portal.Preflight.Budgets.{
  Policy, is_valid, new_budget, check_budget, remaining, drain_time, closed, deadline_exceeded,
  saturated,
}
use payments_portal.Preflight.Admission.{
  Admission, granted, refused, still_waits, enters_now, queues, new_admission, serve, release_loop,
  release, release_if_finished, finish, checked, admit, enter, resume, wake, give_up,
}
use payments_portal.Preflight.Sources.{
  start, forget, source_done, protect, unprotect, cancel_source, cancel_sources, cancel_active,
  refuse_waiters, aclose,
}
use payments_portal.Preflight.Admission.Loop.{
  Section, perform, perform_all, enters, starts, stops, finishes, calls_back, wakes,
}
use payments_portal.Preflight.Sound.{IsSound}
use payments_portal.Preflight.Sound.Runs.{perform_all-IsSound, new_admission-IsSound}
use payments_portal.Preflight.Sound.Bounds.{IsBounded, perform_all-IsBounded}
use payments_portal.Preflight.Closing.{IsOpenTask, aclose_is_final}
use payments_portal.Preflight.Handover.{finish_hands_over}
use payments_portal.Preflight.Deadlines.{read_time_bounds, enter_outcomes}

-- Everything that a run computes with.
unfoldable preflight_program : Unit {0}
unfolding discard remove is_valid new_budget check_budget remaining drain_time serve release_loop
    release release_if_finished finish checked admit enter resume wake give_up start forget
    source_done protect unprotect cancel_source cancel_sources cancel_active refuse_waiters aclose
    perform perform_all
preflight_program = tt

abbrev small : Policy
small = record { total_timeout = 10; cleanup_timeout = 2; max_active = 1; max_waiting = 1 }

-- The operation 0 has the slot and the operation 1 waits for it.
abbrev two_enter : List Section
two_enter = enters 0 7 ∷ enters 1 7 ∷ []

-- The source 2 of operation 0 outlives it, and its slot goes to operation 1 when it has stopped.
abbrev outlived : List Section
outlived =
    enters 0 7
    ∷ enters 1 7
    ∷ starts 1 0
    ∷ enters 2 7
    ∷ finishes 3 0
    ∷ stops 2
    ∷ calls_back 4 0 2
    ∷ wakes 4 1
    ∷ []

abbrev both : Admission
both = perform_all two_enter (new_admission small)

both-IsSound : IsSound both
both-IsSound = perform_all-IsSound two_enter (new_admission small) (new_admission-IsSound small)

outlived_slot :
    ((perform_all outlived (new_admission small)).active ≡ 1 ∷ [])
    × ((perform_all outlived (new_admission small)).waiting ≡ [])
unfolding preflight_program
outlived_slot = (refl, refl)

perform_all-IsBounded_example : IsBounded small (perform_all outlived (new_admission small))
perform_all-IsBounded_example = perform_all-IsBounded small outlived

aclose_is_final_example :
    let s' = perform_all outlived (aclose both) in
    ((b : ℕ)
      → elem b both.waiting ≡ true
      → both.waiters b ≡ still_waits
      → (aclose both).waiters b ≡ refused closed)
    × ((t : ℕ)
        → (aclose both).cancelling t ≡ true
        → (both.cancelling t ≡ true) ⊎ IsOpenTask both.budgets both.active t)
    × (s'.waiting ≡ [])
    × ((now loop : ℕ) → (enter now loop s').0 ≡ err closed)
    × ((now b : ℕ)
        → ((start now b s').0 ≡ err closed) ⊎ ((start now b s').0 ≡ err deadline_exceeded))
aclose_is_final_example = aclose_is_final both outlived both-IsSound

finish_hands_over_example :
    ((finish 3 0 both).waiters 1 ≡ granted) × (elem 1 (finish 3 0 both).active ≡ true)
unfolding preflight_program
finish_hands_over_example =
    finish_hands_over 3 0 1 [] [] both both-IsSound refl refl refl refl tt refl

read_time_bounds_example :
    (0 < 5)
    × (drain_time 8 small (new_budget 0 small) ≡ 2)
    × (8 + drain_time 8 small (new_budget 0 small) ≤ 0 + 10)
    × (drain_time 9 small (new_budget 0 small) ≤ 2)
    × (drain_time 9 small (new_budget 0 small) ≤ 0 + 10 - 9)
    × ((drain_time 9 small (new_budget 0 small) ≡ 2)
        ⊎ (drain_time 9 small (new_budget 0 small) ≡ 0 + 10 - 9))
unfolding preflight_program
read_time_bounds_example = read_time_bounds small 0 3 5 8 9 false refl refl (omega arith)

enter_outcomes_example :
    let (outcome, s') = enter 2 7 both in
    (length both.active < 1
      → (outcome ≡ ok enters_now) × (s'.active ≡ add both.next_number both.active))
    × (length both.active ≡ 1
        → length both.waiting < 1
        → (outcome ≡ ok queues) × (s'.waiting ≡ both.waiting ++ (both.next_number ∷ [])))
    × (length both.active ≡ 1
        → length both.waiting ≡ 1
        → (outcome ≡ err saturated) × (s'.active ≡ both.active) × (s'.waiting ≡ both.waiting))
unfolding preflight_program
enter_outcomes_example = enter_outcomes 2 7 both both-IsSound refl refl refl
