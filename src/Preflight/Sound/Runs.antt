-- ===== src/Preflight/Sound/Runs.antt =====
-- The invariant over any sequence of sections, from a new admission.
use payments_portal.Base.{
  ℕ, inl, inr, refl, Bool, true, none, List, [], ◌∷◌, ◌&&◌, ◌==◌, any, arith, ok, err,
}
use payments_portal.Preflight.Sets.{elem, add, discard}
use payments_portal.Preflight.Budgets.{Policy, new_budget, must_be_counted_source, Attempt}
use payments_portal.Preflight.Admission.{
  Admission, Waiter, put, new_admission, wake, resume, give_up, is_done, still_waits, granted,
  refused, enters_now,
}
use payments_portal.Preflight.Sources.{
  forget, without_task, protect, unprotect, is_call, aclose, source_done,
}
use payments_portal.Preflight.Admission.Loop.{
  Section, perform, perform_all, enters, wakes, finishes, gives_up, starts, stops, forgets,
  calls_back, protects, unprotects, cancels, closes,
}
use payments_portal.Preflight.Sound.{IsSound, put-IsConsistent, if-rule}
use payments_portal.Preflight.Sound.Sections.{
  finish-IsSound, checked-IsSound, source_done-IsSound, dropped-Replaces,
}
use payments_portal.Preflight.Sound.Starts.{enter-IsSound, start-IsSound}

-- The budget `b` changes, but not its slot, its tasks or whether it has finished.
cleanup-IsSound :
    (b : ℕ) (cleanup : List ℕ) (s : Admission)
    → IsSound s
    → IsSound
        (record s { budgets = put b (record (s.budgets b) { cleanup_tasks = cleanup }) s.budgets })
cleanup-IsSound b cleanup s h = record {
  consistent =
      put-IsConsistent none s.policy s.active s.waiting s.next_number s.budgets s.due s.stopped
        h.consistent b (record (s.budgets b) { cleanup_tasks = cleanup })
        (record {
          same_slot = refl;
          finished = inl refl;
          single = h.consistent.single b;
          from_old = λ t e. e;
          left = λ t e. inr e;
        });
  busy = h.busy;
}

same-IsSound :
    (s : Admission) (waiters : ℕ → Waiter) (cancelling : ℕ → Bool)
    → IsSound s
    → IsSound (record s { waiters = waiters; cancelling = cancelling })
same-IsSound s waiters cancelling h = record { consistent = h.consistent; busy = h.busy }

resume-IsSound : (now b : ℕ) (w : Waiter) (s : Admission) → IsSound s → IsSound (resume now b w s).1
unfolding resume
resume-IsSound now b still_waits s h = h
resume-IsSound now b granted s h = checked-IsSound now b enters_now s h
resume-IsSound now b (refused e) s h = finish-IsSound now b s h

forget-IsSound : (b t : ℕ) (s : Admission) → IsSound s → IsSound (forget b t s)
unfolding forget
forget-IsSound b t s h =
    if-rule IsSound (s.stopped t)
      (record s { budgets = put b (without_task t (s.budgets b)) s.budgets }) s
      (λ over. record {
        consistent =
            put-IsConsistent none s.policy s.active s.waiting s.next_number s.budgets s.due
              s.stopped h.consistent b (without_task t (s.budgets b))
              (dropped-Replaces b t s (s.budgets b).cleanup_tasks over h.consistent);
        busy = h.busy;
      })
      (λ runs. h)

stop-IsSound :
    (t : ℕ) (s : Admission) → IsSound s → IsSound (record s { stopped = put t true s.stopped })
stop-IsSound t s h =
    let c = h.consistent in
    record {
      consistent = record {
        active_few = c.active_few;
        waiting_few = c.waiting_few;
        slots = c.slots;
        held = c.held;
        queued = c.queued;
        distinct = c.distinct;
        occupied = c.occupied;
        single = c.single;
        called = c.called;
        attached = λ i u e. ground (arith, c.attached i u e);
        fresh = c.fresh;
      };
      busy = h.busy;
    }

pub aclose-IsSound : (s : Admission) → IsSound s → IsSound (aclose s)
unfolding aclose
aclose-IsSound s h =
    let c = h.consistent in
    record {
      consistent = record {
        active_few = c.active_few;
        waiting_few = omega arith;
        slots = c.slots;
        held = c.held;
        queued = λ i e. cc e;
        distinct = tt;
        occupied = c.occupied;
        single = c.single;
        called = c.called;
        attached = c.attached;
        fresh = λ i h. let (_, idle, silent) = c.fresh i h in (refl, idle, silent);
      };
      busy = inl refl;
    }

perform-IsSound : (x : Section) (s : Admission) → IsSound s → IsSound (perform x s)
unfolding perform give_up protect unprotect wake
perform-IsSound (enters now loop) s h = enter-IsSound now loop s h
perform-IsSound (wakes now b) s h = resume-IsSound now b (s.waiters b) s h
perform-IsSound (finishes now b) s h = finish-IsSound now b s h
perform-IsSound (gives_up e b) s h =
    if-rule IsSound (is_done (s.waiters b)) s (record s { waiters = put b (refused e) s.waiters })
      (λ over. h) (λ waits. same-IsSound s (put b (refused e) s.waiters) s.cancelling h)
perform-IsSound (starts now b) s h = start-IsSound now b s h
perform-IsSound (stops t) s h =
    if-rule IsSound (any (λ call. call.1 == t) s.due) (record s { stopped = put t true s.stopped })
      s (λ runs. stop-IsSound t s h) (λ other. h)
perform-IsSound (forgets b t) s h = forget-IsSound b t s h
perform-IsSound (calls_back now b t) s h =
    if-rule IsSound (any (is_call b t) s.due && s.stopped t) (source_done now b t s) s
      (λ calls. source_done-IsSound now b t s (ground (arith, calls)) h) (λ other. h)
perform-IsSound (protects b t) s h =
    if-rule (λ (r : Attempt Bool × Admission). IsSound r.1) (elem t (s.budgets b).tasks)
      (
        ok (elem t (s.budgets b).cleanup_tasks),
        record s {
          budgets =
              put b (record (s.budgets b) { cleanup_tasks = add t (s.budgets b).cleanup_tasks })
                s.budgets;
        },
      )
      (err must_be_counted_source, s)
      (λ own. cleanup-IsSound b (add t (s.budgets b).cleanup_tasks) s h) (λ foreign. h)
perform-IsSound (unprotects b t already) s h =
    if-rule IsSound already s
      (record s {
        budgets =
            put b (record (s.budgets b) { cleanup_tasks = discard t (s.budgets b).cleanup_tasks })
              s.budgets;
      })
      (λ nested. h) (λ first. cleanup-IsSound b (discard t (s.budgets b).cleanup_tasks) s h)
perform-IsSound (cancels b t) s h = record { consistent = h.consistent; busy = h.busy }
perform-IsSound closes s h = aclose-IsSound s h

pub perform_all-IsSound :
    (xs : List Section) (s : Admission) → IsSound s → IsSound (perform_all xs s)
unfolding perform_all
perform_all-IsSound [] s h = h
perform_all-IsSound (x ∷ xs) s h = perform_all-IsSound xs (perform x s) (perform-IsSound x s h)

pub new_admission-IsSound : (p : Policy) → IsSound (new_admission p)
unfolding new_budget
new_admission-IsSound p = record {
  consistent = record {
    active_few = omega arith;
    waiting_few = omega arith;
    slots = λ b. refl;
    held = λ b other slot. cc slot;
    queued = λ b e. cc e;
    distinct = tt;
    occupied = λ b t e. cc e;
    single = λ b. omega arith;
    called = λ b t e. cc e;
    attached = λ b t e. cc e;
    fresh = λ b h. (refl, refl, refl);
  };
  busy = inl refl;
}
