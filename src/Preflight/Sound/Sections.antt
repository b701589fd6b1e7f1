-- ===== src/Preflight/Sound/Sections.antt =====
-- The sections that give a slot back or leave the queue keep the invariant.
use payments_portal.Base.{
  ℕ, ◌≡◌, ◌⊎◌, inl, inr, refl, Bool, Bool-cases, Result-cases, true, false, none, some, Option,
  List, [], not, ◌&&◌, ◌==◌, ==_iff, select, opt_eq_refl, arith, subst, sym, ap, ◌∙◌,
}
use payments_portal.Preflight.Sets.{
  elem, discard, remove, is_empty, elem-discard, elem-remove, length-remove-le, remove-Distinct,
  removed, length-discard-le,
}
use payments_portal.Preflight.Budgets.{Policy, Budget, check_budget}
use payments_portal.Preflight.Admission.{
  Admission, Entry, put, release, release_if_finished, finish, checked,
}
use payments_portal.Preflight.Sources.{is_call, without_task, source_done}
use payments_portal.Preflight.Sound.{
  IsConsistent, Consistent, IsSound, IsBusy, Replaces, has_due, put-IsConsistent,
  freed-IsConsistent,
}
use payments_portal.Preflight.Sound.Releases.{release_loop-IsSound, discarded-IsConsistent}
use payments_portal.Preflight.Sound.Calls.{
  first_task, due_call, still_due, fewer_due, other_call, was_call,
}

open_ways : (s : Admission) → IsBusy s → (s.is_closed ≡ false) ⊎ (s.waiting ≡ [])
open_ways s (inl nobody) = inr nobody
open_ways s (inr full) = inl full.0

module _ (p : Policy) (active waiting : List ℕ) (next : ℕ) (budgets : ℕ → Budget)
    (due : List (ℕ × ℕ)) (stopped : ℕ → Bool) (b : ℕ)
    (c : IsConsistent (some b) p active waiting next budgets due stopped) where
  -- The slot that was looked at is held for a reason.
  pub kept-IsConsistent :
      ((budgets b).is_admitted ≡ true → ((budgets b).is_finished ≡ false) ⊎ (has_due b due ≡ true))
      → IsConsistent none p active waiting next budgets due stopped
  kept-IsConsistent reason = record {
    active_few = c.active_few;
    waiting_few = c.waiting_few;
    slots = c.slots;
    held = λ i other slot. elim (Bool-cases (b == i)) [
      | inl same ↦
          subst
            (λ j.
              (budgets j).is_admitted ≡ true
              → ((budgets j).is_finished ≡ false) ⊎ (has_due j due ≡ true))
            ((==_iff b i).0 same) reason slot
      | inr different ↦ c.held i different slot
    ];
    queued = c.queued;
    distinct = c.distinct;
    occupied = c.occupied;
    single = c.single;
    called = c.called;
    attached = c.attached;
    fresh = c.fresh;
  }

  pub removed-IsConsistent :
      IsConsistent (some b) p active (remove b waiting) next budgets due stopped
  removed-IsConsistent = record {
    active_few = c.active_few;
    waiting_few = omega (arith, c.waiting_few, length-remove-le b waiting);
    slots = c.slots;
    held = c.held;
    queued = λ i e. c.queued i (elem-remove b i waiting e);
    distinct = remove-Distinct b waiting c.distinct;
    occupied = c.occupied;
    single = c.single;
    called = c.called;
    attached = c.attached;
    fresh = λ i h. ground (arith, c.fresh i h, elem-remove b i waiting);
  }

  -- The callback of a task that is gone is called.
  pub called_back-IsConsistent :
      (t : ℕ)
      → elem t (budgets b).tasks ≡ false
      → IsConsistent
          (some b)
          p
          active
          waiting
          next
          budgets
          (select (λ call. not (is_call b t call)) due)
          stopped
  called_back-IsConsistent t gone = record {
    active_few = c.active_few;
    waiting_few = c.waiting_few;
    slots = c.slots;
    held = λ i other slot. elim (c.held i other slot) [
      | inl unfinished ↦ inl unfinished
      | inr calls ↦ inr (still_due b t i due other calls)
    ];
    queued = c.queued;
    distinct = c.distinct;
    occupied = c.occupied;
    single = c.single;
    called = λ i u e. other_call b t i u due (different_call i u e) (c.called i u e);
    attached = λ i u e. c.attached i u (was_call b t i u due e);
    fresh = λ i h. ground (arith, c.fresh i h, fewer_due b t i due);
  }
    where
      different_call : (i u : ℕ) → elem u (budgets i).tasks ≡ true → ((i == b) && (u == t)) ≡ false
      different_call i u e = elim (Bool-cases ((i == b) && (u == t))) [
        | inr different ↦ different
        | inl same ↦
            let at_b : elem u (budgets b).tasks ≡ true =
              subst (λ j. elem u (budgets j).tasks ≡ true) ((==_iff i b).0 (ground (arith, same)))
                e in
            let there : elem t (budgets b).tasks ≡ true =
              subst (λ v. elem v (budgets b).tasks ≡ true) ((==_iff u t).0 (ground (arith, same)))
                at_b in
            cc (there, gone)
      ]

settled-IsSound :
    (now b : ℕ) (s : Admission)
    → Consistent (some b) s.waiting s
    → IsBusy s
    → IsSound (release_if_finished now b s)
unfolding release_if_finished release
settled-IsSound now b s c busy =
    elim (Bool-cases
      ((s.budgets b).is_finished && ((s.budgets b).is_admitted && is_empty (s.budgets b).tasks))) [
        | inl over ↦
            rw (over, release_if_finished)
              (release_loop-IsSound now s.waiting
                (record s {
                  budgets = put b (record (s.budgets b) { is_admitted = false }) s.budgets;
                  active = discard b s.active;
                })
                (discarded-IsConsistent s.policy s.active s.waiting s.next_number s.budgets s.due
                  s.stopped b c (ground (arith, over)))
                (open_ways s busy))
        | inr held ↦
            rw (held, release_if_finished)
              (record {
                consistent =
                    kept-IsConsistent s.policy s.active s.waiting s.next_number s.budgets s.due
                      s.stopped b c
                      (λ slot. elim (Bool-cases (s.budgets b).is_finished) [
                        | inr unfinished ↦ inl unfinished
                        | inl finished ↦
                            let (t, there) =
                              first_task (s.budgets b).tasks
                                (ground (arith, held, slot, finished)) in
                            inr (due_call b t s.due (c.called b t there))
                      ]);
                busy = busy;
              })
      ]

removed-IsBusy :
    (b : ℕ) (s : Admission) → IsBusy s → IsBusy (record s { waiting = remove b s.waiting })
unfolding remove
removed-IsBusy b s (inl nobody) = inl (ap (remove b) nobody)
removed-IsBusy b s (inr full) = inr full

pub finish-IsSound : (now b : ℕ) (s : Admission) → IsSound s → IsSound (finish now b s)
unfolding finish
finish-IsSound now b s h =
    let c = h.consistent in
    let freed =
      freed-IsConsistent none s.policy s.active s.waiting s.next_number s.budgets s.due s.stopped c
        b refl in
    let left =
      removed-IsConsistent s.policy s.active s.waiting s.next_number s.budgets s.due s.stopped b
        freed in
    let new = record (s.budgets b) { is_finished = true } in
    let ended =
      put-IsConsistent (some b) s.policy s.active (remove b s.waiting) s.next_number s.budgets s.due
        s.stopped left b new
        (record {
          same_slot = refl;
          finished = inr (opt_eq_refl (some b), removed b s.waiting c.distinct);
          single = c.single b;
          from_old = λ t e. e;
          left = λ t e. inr e;
        }) in
    settled-IsSound now b (record s { waiting = remove b s.waiting; budgets = put b new s.budgets })
      ended (removed-IsBusy b s h.busy)

pub checked-IsSound :
    (now b : ℕ) (entry : Entry) (s : Admission) → IsSound s → IsSound (checked now b entry s).1
unfolding checked
checked-IsSound now b entry s h = elim (Result-cases (check_budget now s.is_closed (s.budgets b))) [
  | inl (tt, passed) ↦ rw (passed, checked) h
  | inr (e, over) ↦ rw (over, checked) (finish-IsSound now b s h)
]

-- A budget without a task that has stopped.
pub dropped-Replaces :
    (b t : ℕ) (s : Admission) (cleanup : List ℕ) {free : Option ℕ}
    → s.stopped t ≡ true
    → Consistent none s.waiting s
    → Replaces free s.waiting s.stopped b
        (s.budgets b)
        (record (without_task t (s.budgets b)) { cleanup_tasks = cleanup })
dropped-Replaces b t s cleanup {free} over c = record {
  same_slot = refl;
  finished = inl refl;
  single = omega (arith, c.single b, length-discard-le t (s.budgets b).tasks);
  from_old = λ u e. ground (arith, e, elem-discard t u (s.budgets b).tasks);
  left = λ u e. elim (Bool-cases (u == t)) [
    | inl same ↦ inl (subst (λ v. s.stopped v ≡ true) (sym ((==_iff u t).0 same)) over)
    | inr other ↦ inr (elem-discard t u (s.budgets b).tasks ∙ ground (arith, other, e))
  ];
}

pub source_done-IsSound :
    (now b t : ℕ) (s : Admission) → s.stopped t ≡ true → IsSound s → IsSound (source_done now b t s)
unfolding source_done
source_done-IsSound now b t s over h =
    let c = h.consistent in
    let old = s.budgets b in
    let new = record (without_task t old) { cleanup_tasks = discard t old.cleanup_tasks } in
    let freed =
      freed-IsConsistent none s.policy s.active s.waiting s.next_number s.budgets s.due s.stopped c
        b refl in
    let dropped =
      put-IsConsistent (some b) s.policy s.active s.waiting s.next_number s.budgets s.due s.stopped
        freed b new (dropped-Replaces b t s (discard t old.cleanup_tasks) over c) in
    settled-IsSound now b
      (record s {
        due = select (λ call. not (is_call b t call)) s.due;
        budgets = put b new s.budgets;
      })
      (called_back-IsConsistent s.policy s.active s.waiting s.next_number (put b new s.budgets)
        s.due s.stopped b dropped t (ground (arith, elem-discard t t old.tasks)))
      h.busy
