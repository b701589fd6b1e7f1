-- ===== src/Preflight/Sound/Starts.antt =====
-- The entry of an operation and the start of a source keep the invariant.
use payments_portal.Preflight.Sound.Entries.{
  queued-IsConsistent, enrolled-IsConsistent, started-IsConsistent,
}
use payments_portal.Base.{
  ℕ, ◌≡◌, ◌≤◌, ◌<◌, inl, inr, err, refl, Bool-cases, Result-cases, true, false, none_or, List, [],
  ◌∷◌, ◌++◌, not, ◌&&◌, ◌==◌, ltb, leb, length, arith, ap, if◌then◌else◌, ◌||◌,
}
use payments_portal.Preflight.Sets.{elem, is_empty}
use payments_portal.Preflight.Budgets.{check_budget, new_budget, closed, cannot_cross_event_loops}
use payments_portal.Preflight.Admission.{
  Admission, enters_now, queues, still_waits, put, activate, admit, with_budget, enter,
}
use payments_portal.Preflight.Sources.{start}
use payments_portal.Preflight.Sound.{IsSound, IsBusy, if-rule}
use payments_portal.Preflight.Sound.Releases.{activated-IsConsistent}
use payments_portal.Preflight.Sound.Sections.{finish-IsSound, checked-IsSound}

nobody : (waiting : List ℕ) → is_empty waiting ≡ true → waiting ≡ []
nobody [] h = refl
nobody (x ∷ waiting) h = cc h

all_taken :
    (s : Admission)
    → IsBusy s
    → (ltb (length s.active) s.policy.max_active && is_empty s.waiting) ≡ false
    → s.policy.max_active ≤ length s.active
all_taken s (inr full) taken = full.1
all_taken s (inl none_wait) taken = ground (arith, taken, ap is_empty none_wait)

admit-IsSound :
    (now b : ℕ) (s : Admission)
    → IsSound s
    → s.is_closed ≡ false
    → b < s.next_number
    → (s.budgets b).is_finished ≡ false
    → (s.budgets b).is_admitted ≡ false
    → elem b s.waiting ≡ false
    → IsSound (admit now b s).1
unfolding admit
admit-IsSound now b s h is_open old unfinished idle absent =
    let c = h.consistent in
    elim (Bool-cases (ltb (length s.active) s.policy.max_active && is_empty s.waiting)) [
      | inl free ↦
          rw (free, admit)
            (checked-IsSound now b enters_now (activate b s) (record {
              consistent =
                  activated-IsConsistent s.policy s.active s.waiting s.next_number s.budgets s.due
                    s.stopped b c (ground (arith, free)) unfinished absent old;
              busy = inl (nobody s.waiting (ground (arith, free)));
            }))
      | inr taken ↦ elim (Bool-cases (leb s.policy.max_waiting (length s.waiting))) [
        | inl full ↦ rw (taken, full, admit) (finish-IsSound now b s h)
        | inr room ↦
            rw (taken, room, admit)
              (checked-IsSound now b queues
                (record s {
                  waiters = put b still_waits s.waiters;
                  waiting = s.waiting ++ (b ∷ []);
                })
                (record {
                  consistent =
                      queued-IsConsistent s.policy s.active s.waiting s.next_number s.budgets s.due
                        s.stopped c b (ground (arith, room)) absent old unfinished idle;
                  busy = inr (is_open, all_taken s h.busy taken);
                }))
      ]
    ]

pub enter-IsSound : (now loop : ℕ) (s : Admission) → IsSound s → IsSound (enter now loop s).1
unfolding enter new_budget
enter-IsSound now loop s h =
    if-rule (λ r. IsSound r.1) s.is_closed (err closed, s)
      (if not (none_or (λ l. l == loop) s.event_loop)
        then (err cannot_cross_event_loops, s)
        else admit now s.next_number (with_budget now loop s))
      (λ shut. h)
      (λ is_open.
        if-rule (λ r. IsSound r.1) (not (none_or (λ l. l == loop) s.event_loop))
          (err cannot_cross_event_loops, s) (admit now s.next_number (with_budget now loop s))
          (λ foreign. h)
          (λ own.
            admit-IsSound now s.next_number (with_budget now loop s)
              (record {
                consistent =
                    enrolled-IsConsistent s.policy s.active s.waiting s.next_number s.budgets s.due
                      s.stopped h.consistent (new_budget now s.policy) refl refl;
                busy = h.busy;
              })
              is_open (omega arith) (ground arith) (ground arith)
              (h.consistent.fresh s.next_number (omega arith)).0))

pub start-IsSound : (now b : ℕ) (s : Admission) → IsSound s → IsSound (start now b s).1
unfolding start
start-IsSound now b s h = elim (Result-cases (check_budget now s.is_closed (s.budgets b))) [
  | inr (e, over) ↦ rw (over, start) h
  | inl (tt, passed) ↦
      elim (Bool-cases (not (s.budgets b).is_admitted || not (is_empty (s.budgets b).tasks))) [
        | inl unfit ↦ rw (passed, unfit, start) h
        | inr fit ↦
            rw (passed, fit, start)
              (record {
                consistent =
                    started-IsConsistent s.policy s.active s.waiting s.next_number s.budgets s.due
                      s.stopped h.consistent b (ground (arith, fit)) (ground (arith, fit));
                busy = h.busy;
              })
      ]
]
