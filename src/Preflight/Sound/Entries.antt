-- ===== src/Preflight/Sound/Entries.antt =====
-- A new budget, a place in the queue and a new task keep what is consistent.
use payments_portal.Base.{
  ℕ, ◌≡◌, ◌≤◌, ◌<◌, ◌⊎◌, inl, inr, Bool, Bool-cases, true, false, none, some, List, [], ◌∷◌, ◌++◌,
  ◌==◌, ==_iff, ltb, any, length, length-append, opt_eq, arith, subst, sym, ap, ◌∙◌, ◌+◌,
}
use payments_portal.Preflight.Sets.{elem, add, is_empty, elem-append, append-Distinct}
use payments_portal.Preflight.Budgets.{Policy, Budget}
use payments_portal.Preflight.Admission.{put}
use payments_portal.Preflight.Sources.{is_call}
use payments_portal.Preflight.Sound.{IsConsistent, has_due, put-rule}
use payments_portal.Preflight.Sound.Releases.{elem-add}
use payments_portal.Preflight.Sound.Calls.{due_call}

only_task : (tasks : List ℕ) (t : ℕ) → is_empty tasks ≡ true → length (add t tasks) ≤ 1
only_task [] t h = omega arith
only_task (x ∷ tasks) t h = cc h

module _ (p : Policy) (active waiting : List ℕ) (next : ℕ) (budgets : ℕ → Budget)
    (due : List (ℕ × ℕ)) (stopped : ℕ → Bool)
    (c : IsConsistent none p active waiting next budgets due stopped) where
  -- A budget without slot and tasks is made under the next number.
  pub enrolled-IsConsistent :
      (new : Budget)
      → new.is_admitted ≡ false
      → new.tasks ≡ []
      → IsConsistent none p active waiting (next + 1) (put next new budgets) due stopped
  enrolled-IsConsistent new idle no_tasks =
      let (unqueued, absent, silent) = c.fresh next (omega arith) in
      let without : (t : ℕ) → elem t new.tasks ≡ false = λ t. ap (elem t) no_tasks in
      record {
        active_few = c.active_few;
        waiting_few = c.waiting_few;
        slots =
            put-rule (λ i x. elem i active ≡ x.is_admitted) next new budgets (absent ∙ sym idle)
              (λ i ne. c.slots i);
        held =
            put-rule
              (λ i x.
                opt_eq none (some i) ≡ false
                → x.is_admitted ≡ true
                → (x.is_finished ≡ false) ⊎ (has_due i due ≡ true))
              next new budgets (λ other slot. cc (slot, idle)) (λ i ne. c.held i);
        queued =
            put-rule
              (λ i x. elem i waiting ≡ true → (x.is_finished ≡ false) × (x.is_admitted ≡ false))
              next new budgets (λ e. cc (e, unqueued)) (λ i ne. c.queued i);
        distinct = c.distinct;
        occupied =
            put-rule (λ i x. (t : ℕ) → elem t x.tasks ≡ true → x.is_admitted ≡ true) next new
              budgets (λ t e. cc (e, without t)) (λ i ne. c.occupied i);
        single =
            put-rule (λ i x. length x.tasks ≤ 1) next new budgets
              (subst (λ l. length l ≤ 1) (sym no_tasks) (omega arith)) (λ i ne. c.single i);
        called =
            put-rule (λ i x. (t : ℕ) → elem t x.tasks ≡ true → any (is_call i t) due ≡ true) next
              new budgets (λ t e. cc (e, without t)) (λ i ne. c.called i);
        attached =
            put-rule
              (λ i x.
                (t : ℕ)
                → any (is_call i t) due ≡ true
                → (stopped t ≡ true) ⊎ (elem t x.tasks ≡ true))
              next new budgets (λ t e. cc (due_call next t due e, silent)) (λ i ne. c.attached i);
        fresh = λ i h. c.fresh i (omega (arith, h));
      }

  -- It joins the queue.
  pub queued-IsConsistent :
      (b : ℕ)
      → length waiting < p.max_waiting
      → elem b waiting ≡ false
      → b < next
      → (budgets b).is_finished ≡ false
      → (budgets b).is_admitted ≡ false
      → IsConsistent none p active (waiting ++ (b ∷ [])) next budgets due stopped
  queued-IsConsistent b room absent old unfinished idle = record {
    active_few = c.active_few;
    waiting_few = omega (arith, room, length-append waiting (b ∷ []));
    slots = c.slots;
    held = c.held;
    queued = λ i e. elim (Bool-cases (b == i)) [
      | inl same ↦
          subst (λ j. ((budgets j).is_finished ≡ false) × ((budgets j).is_admitted ≡ false))
            ((==_iff b i).0 same) (unfinished, idle)
      | inr other ↦ c.queued i (ground (arith, e, other, elem-append i waiting (b ∷ [])))
    ];
    distinct = append-Distinct b waiting absent c.distinct;
    occupied = c.occupied;
    single = c.single;
    called = c.called;
    attached = c.attached;
    fresh = λ i h. ground (arith, c.fresh i h, elem-append i waiting (b ∷ []), h, old);
  }

  -- A source's task is made under the next number, for an operation with a slot and no task.
  pub started-IsConsistent :
      (b : ℕ)
      → (budgets b).is_admitted ≡ true
      → is_empty (budgets b).tasks ≡ true
      → IsConsistent none p active waiting
          (next + 1)
          (put b (record (budgets b) { tasks = add next (budgets b).tasks }) budgets)
          ((b, next) ∷ due)
          stopped
  started-IsConsistent b slot idle =
      let new = record (budgets b) { tasks = add next (budgets b).tasks } in
      record {
        active_few = c.active_few;
        waiting_few = c.waiting_few;
        slots =
            put-rule (λ i x. elem i active ≡ x.is_admitted) b new budgets (c.slots b)
              (λ i ne. c.slots i);
        held =
            put-rule
              (λ i x.
                opt_eq none (some i) ≡ false
                → x.is_admitted ≡ true
                → (x.is_finished ≡ false) ⊎ (has_due i ((b, next) ∷ due) ≡ true))
              b new budgets (λ other _. inr (ground arith))
              (λ i ne other taken. ground (arith, c.held i other taken));
        queued =
            put-rule
              (λ i x. elem i waiting ≡ true → (x.is_finished ≡ false) × (x.is_admitted ≡ false)) b
              new budgets (c.queued b) (λ i ne. c.queued i);
        distinct = c.distinct;
        occupied =
            put-rule (λ i x. (t : ℕ) → elem t x.tasks ≡ true → x.is_admitted ≡ true) b new budgets
              (λ t e. slot) (λ i ne. c.occupied i);
        single =
            put-rule (λ i x. length x.tasks ≤ 1) b new budgets
              (only_task (budgets b).tasks next idle) (λ i ne. c.single i);
        called =
            put-rule
              (λ i x. (t : ℕ) → elem t x.tasks ≡ true → any (is_call i t) ((b, next) ∷ due) ≡ true)
              b new budgets
              (λ t e. ground (arith, e, elem-add next t (budgets b).tasks, c.called b t))
              (λ i ne t e. ground (arith, c.called i t e));
        attached =
            put-rule
              (λ i x.
                (t : ℕ)
                → any (is_call i t) ((b, next) ∷ due) ≡ true
                → (stopped t ≡ true) ⊎ (elem t x.tasks ≡ true))
              b new budgets
              (λ t e. ground (arith, e, elem-add next t (budgets b).tasks, c.attached b t))
              (λ i ne t e. c.attached i t (ground (arith, e, ne)));
        fresh = λ i h.
            let (unqueued, absent, silent) = c.fresh i (omega (arith, h)) in
            (unqueued, absent, ground (arith, silent, h, in_use b slot));
      }
    where
      in_use : (i : ℕ) → (budgets i).is_admitted ≡ true → i < next
      in_use i taken = elim (Bool-cases (ltb i next)) [
        | inl below ↦ ground (arith, below)
        | inr above ↦
            let (_, absent, _) = c.fresh i (ground (arith, above)) in cc (taken, absent, c.slots i)
      ]
