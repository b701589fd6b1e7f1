-- ===== src/Preflight/Sound/Releases.antt =====
-- A slot that is given back goes to the operations that wait.
use payments_portal.Base.{
  ℕ, ◌≡◌, ◌≤◌, ◌<◌, ◌⊎◌, inl, inr, refl, Bool, Bool-cases, true, false, none, some, List, [], ◌∷◌,
  not, ◌&&◌, ◌==◌, ==_iff, ltb, leb, any, length, opt_eq, arith, subst, ◌∙◌, length-append, ◌||◌,
  ◌+◌,
}
use payments_portal.Preflight.Sets.{
  elem, add, discard, is_empty, elem-append, elem-discard, length-discard-le,
}
use payments_portal.Preflight.Budgets.{Policy, Budget}
use payments_portal.Preflight.Admission.{Admission, put, is_done, serve, release_loop}
use payments_portal.Preflight.Sources.{is_call}
use payments_portal.Preflight.Sound.{IsConsistent, Consistent, IsSound, has_due, put-rule}

pub elem-add : (b i : ℕ) (xs : List ℕ) → elem i (add b xs) ≡ ((b == i) || elem i xs)
elem-add b i xs = elim (Bool-cases (elem b xs)) [
  | inl there ↦ elim (Bool-cases (b == i)) [
    | inl same ↦ rw there (rw same (subst (λ j. elem j xs ≡ true) ((==_iff b i).0 same) there))
    | inr other ↦ rw there (rw other refl)
  ]
  | inr absent ↦ rw absent (elem-append i xs (b ∷ []) ∙ ground arith)
]

pub length-add-le : (b : ℕ) (xs : List ℕ) → length (add b xs) ≤ length xs + 1
length-add-le b xs = ground (arith, length-append xs (b ∷ []))

other_way : (i k : ℕ) → (i == k) ≡ false → (k == i) ≡ false
other_way i k h = ground (arith, h)

pub nothing_there : {A : Type 0} (xs : List ℕ) (t : ℕ) → is_empty xs ≡ true → elem t xs ≡ true → A
nothing_there [] t h e = cc e
nothing_there (x ∷ xs) t h e = cc h

module _ (p : Policy) (active waiting : List ℕ) (next : ℕ) (budgets : ℕ → Budget)
    (due : List (ℕ × ℕ)) (stopped : ℕ → Bool) where
  pub popped-IsConsistent :
      (b : ℕ)
      → IsConsistent none p active (b ∷ waiting) next budgets due stopped
      → IsConsistent none p active waiting next budgets due stopped
  popped-IsConsistent b c = record {
    active_few = c.active_few;
    waiting_few = omega (arith, c.waiting_few);
    slots = c.slots;
    held = c.held;
    queued = λ i e. c.queued i (ground (arith, e));
    distinct = c.distinct.1;
    occupied = c.occupied;
    single = c.single;
    called = c.called;
    attached = c.attached;
    fresh = λ i h. ground (arith, c.fresh i h);
  }

  pub activated-IsConsistent :
      (b : ℕ)
      → IsConsistent none p active waiting next budgets due stopped
      → length active < p.max_active
      → (budgets b).is_finished ≡ false
      → elem b waiting ≡ false
      → b < next
      → IsConsistent none p
          (add b active)
          waiting
          next
          (put b (record (budgets b) { is_admitted = true }) budgets)
          due
          stopped
  activated-IsConsistent b c room unfinished absent old =
      let new = record (budgets b) { is_admitted = true } in
      record {
        active_few = omega (arith, room, length-add-le b active);
        waiting_few = c.waiting_few;
        slots =
            put-rule (λ i x. elem i (add b active) ≡ x.is_admitted) b new budgets
              (elem-add b b active ∙ ground arith)
              (λ i ne. elem-add b i active ∙ ground (arith, other_way i b ne, c.slots i));
        held =
            put-rule
              (λ i x.
                opt_eq none (some i) ≡ false
                → x.is_admitted ≡ true
                → (x.is_finished ≡ false) ⊎ (has_due i due ≡ true))
              b new budgets (λ other slot. inl unfinished) (λ i ne. c.held i);
        queued =
            put-rule
              (λ i x. elem i waiting ≡ true → (x.is_finished ≡ false) × (x.is_admitted ≡ false)) b
              new budgets (λ e. cc (e, absent)) (λ i ne. c.queued i);
        distinct = c.distinct;
        occupied =
            put-rule (λ i x. (t : ℕ) → elem t x.tasks ≡ true → x.is_admitted ≡ true) b new budgets
              (λ t e. refl) (λ i ne. c.occupied i);
        single =
            put-rule (λ i x. length x.tasks ≤ 1) b new budgets (c.single b) (λ i ne. c.single i);
        called =
            put-rule (λ i x. (t : ℕ) → elem t x.tasks ≡ true → any (is_call i t) due ≡ true) b new
              budgets (c.called b) (λ i ne. c.called i);
        attached =
            put-rule
              (λ i x.
                (t : ℕ)
                → any (is_call i t) due ≡ true
                → (stopped t ≡ true) ⊎ (elem t x.tasks ≡ true))
              b new budgets (c.attached b) (λ i ne. c.attached i);
        fresh = λ i h.
            let (unqueued, idle, silent) = c.fresh i h in
            (unqueued, elem-add b i active ∙ ground (arith, idle, old, h), silent);
      }

  -- The slot of a finished operation without a task is given back.
  pub discarded-IsConsistent :
      (b : ℕ)
      → IsConsistent (some b) p active waiting next budgets due stopped
      → is_empty (budgets b).tasks ≡ true
      → IsConsistent none p
          (discard b active)
          waiting
          next
          (put b (record (budgets b) { is_admitted = false }) budgets)
          due
          stopped
  discarded-IsConsistent b c idle =
      let new = record (budgets b) { is_admitted = false } in
      record {
        active_few = omega (arith, c.active_few, length-discard-le b active);
        waiting_few = c.waiting_few;
        slots =
            put-rule (λ i x. elem i (discard b active) ≡ x.is_admitted) b new budgets
              (elem-discard b b active ∙ ground arith)
              (λ i ne. elem-discard b i active ∙ ground (arith, ne, c.slots i));
        held =
            put-rule
              (λ i x.
                opt_eq none (some i) ≡ false
                → x.is_admitted ≡ true
                → (x.is_finished ≡ false) ⊎ (has_due i due ≡ true))
              b new budgets (λ other slot. cc slot)
              (λ i ne other slot. c.held i (ground (arith, other_way i b ne)) slot);
        queued =
            put-rule
              (λ i x. elem i waiting ≡ true → (x.is_finished ≡ false) × (x.is_admitted ≡ false)) b
              new budgets (λ e. ((c.queued b e).0, refl)) (λ i ne. c.queued i);
        distinct = c.distinct;
        occupied =
            put-rule (λ i x. (t : ℕ) → elem t x.tasks ≡ true → x.is_admitted ≡ true) b new budgets
              (λ t e. nothing_there (budgets b).tasks t idle e) (λ i ne. c.occupied i);
        single =
            put-rule (λ i x. length x.tasks ≤ 1) b new budgets (c.single b) (λ i ne. c.single i);
        called =
            put-rule (λ i x. (t : ℕ) → elem t x.tasks ≡ true → any (is_call i t) due ≡ true) b new
              budgets (c.called b) (λ i ne. c.called i);
        attached =
            put-rule
              (λ i x.
                (t : ℕ)
                → any (is_call i t) due ≡ true
                → (stopped t ≡ true) ⊎ (elem t x.tasks ≡ true))
              b new budgets (c.attached b) (λ i ne. c.attached i);
        fresh = λ i h.
            let (unqueued, idle_slot, silent) = c.fresh i h in
            (unqueued, elem-discard b i active ∙ ground (arith, idle_slot), silent);
      }

older :
    (b next : ℕ) (active waiting : List ℕ) (due : List (ℕ × ℕ))
    → ((i : ℕ)
        → next ≤ i
        → (elem i (b ∷ waiting) ≡ false) × (elem i active ≡ false) × (has_due i due ≡ false))
    → b < next
older b next active waiting due fresh = elim (Bool-cases (ltb b next)) [
  | inl below ↦ ground (arith, below)
  | inr above ↦ ground (arith, fresh b (ground (arith, above)))
]

serve-Consistent :
    (now b : ℕ) (queue : List ℕ) (s : Admission)
    → Consistent none (b ∷ queue) s
    → length s.active < s.policy.max_active
    → Consistent none queue (serve now b s) × ((serve now b s).is_closed ≡ s.is_closed)
unfolding serve
serve-Consistent now b queue s c room =
    let popped =
      popped-IsConsistent s.policy s.active queue s.next_number s.budgets s.due s.stopped b c in
    elim (Bool-cases (is_done (s.waiters b))) [
      | inl over ↦ rw (over, serve) (popped, refl)
      | inr waits ↦ elim (Bool-cases (leb (s.budgets b).work_deadline now)) [
        | inl late ↦ rw (waits, late, serve) (popped, refl)
        | inr early ↦
            rw (waits, early, serve)
              (
                activated-IsConsistent s.policy s.active queue s.next_number s.budgets s.due
                    s.stopped b popped room (c.queued b (ground arith)).0 c.distinct.0
                    (older b s.next_number s.active queue s.due c.fresh),
                refl,
              )
      ]
    ]

pub release_loop-IsSound :
    (now : ℕ) (queue : List ℕ) (s : Admission)
    → Consistent none queue s
    → (s.is_closed ≡ false) ⊎ (queue ≡ [])
    → IsSound (release_loop now queue s)
unfolding release_loop
release_loop-IsSound now [] s c ways = record { consistent = c; busy = inl refl }
release_loop-IsSound now (b ∷ queue) s c ways =
    let is_open : s.is_closed ≡ false = ground (arith, ways) in
    elim (Bool-cases (not s.is_closed && ltb (length s.active) s.policy.max_active)) [
      | inl room ↦
          let (c', same) = serve-Consistent now b queue s c (ground (arith, room)) in
          rw (room, release_loop)
            (release_loop-IsSound now queue (serve now b s) c' (inl (same ∙ is_open)))
      | inr full ↦
          rw (full, release_loop)
            (record { consistent = c; busy = inr (is_open, ground (arith, full, is_open)) })
    ]
