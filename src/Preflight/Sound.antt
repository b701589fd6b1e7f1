-- ===== src/Preflight/Sound.antt =====
-- The invariant of the admission: who has a slot, who waits, and what a slot waits for.
pub mod Releases
pub mod Sections
pub mod Calls
pub mod Entries
pub mod Starts
pub mod Runs
pub mod Owner
pub mod Bounds
use payments_portal.Base.{
  ℕ, ◌≡◌, ◌≢◌, ◌≤◌, ◌⊎◌, inl, inr, refl, Bool, Bool-cases, true, false, Option, none, some, List,
  [], ◌∷◌, not, ◌==◌, ==_iff, any, select, length, opt_eq, opt_eq_refl, opt_eq→eq, arith, subst,
  sym, ap, ◌∙◌, if◌then◌else◌,
}
use payments_portal.Preflight.Sets.{elem, is_empty, Distinct}
use payments_portal.Preflight.Budgets.{Policy, Budget}
use payments_portal.Preflight.Admission.{Admission, put}
use payments_portal.Preflight.Sources.{is_call}

-- A callback of the operation is due.
abbrev pub has_due : ℕ → List (ℕ × ℕ) → Bool
has_due b due = any (λ call. call.0 == b) due

-- `free` is an operation whose slot is looked at right now.
pub record IsConsistent (free : Option ℕ) (p : Policy) (active waiting : List ℕ) (next : ℕ)
    (budgets : ℕ → Budget) (due : List (ℕ × ℕ)) (stopped : ℕ → Bool) : Type 0 where
  pub active_few : length active ≤ p.max_active
  pub waiting_few : length waiting ≤ p.max_waiting
  pub slots : (b : ℕ) → elem b active ≡ (budgets b).is_admitted
  pub held :
      (b : ℕ)
      → opt_eq free (some b) ≡ false
      → (budgets b).is_admitted ≡ true
      → ((budgets b).is_finished ≡ false) ⊎ (has_due b due ≡ true)
  pub queued :
      (b : ℕ)
      → elem b waiting ≡ true
      → ((budgets b).is_finished ≡ false) × ((budgets b).is_admitted ≡ false)
  pub distinct : Distinct waiting
  pub occupied : (b t : ℕ) → elem t (budgets b).tasks ≡ true → (budgets b).is_admitted ≡ true
  pub single : (b : ℕ) → length (budgets b).tasks ≤ 1
  pub called : (b t : ℕ) → elem t (budgets b).tasks ≡ true → any (is_call b t) due ≡ true
  pub attached :
      (b t : ℕ)
      → any (is_call b t) due ≡ true
      → (stopped t ≡ true) ⊎ (elem t (budgets b).tasks ≡ true)
  pub fresh :
      (b : ℕ)
      → next ≤ b
      → (elem b waiting ≡ false) × (elem b active ≡ false) × (has_due b due ≡ false)

abbrev pub Consistent : Option ℕ → List ℕ → Admission → Type 0
Consistent free queue s =
    IsConsistent free s.policy s.active queue s.next_number s.budgets s.due s.stopped

-- Nobody waits, or the admission is open and all its slots are taken.
abbrev pub IsBusy : Admission → Type 0
IsBusy s = (s.waiting ≡ []) ⊎ ((s.is_closed ≡ false) × (s.policy.max_active ≤ length s.active))

pub record IsSound (s : Admission) : Type 0 where
  pub consistent : Consistent none s.waiting s
  pub busy : IsBusy s

-- What holds of the new value and of the old ones elsewhere holds of the map behind `put`.
pub put-rule :
    {A : Type 0} (P : ℕ → A → Type 0) (k : ℕ) (new : A) (old : ℕ → A)
    → P k new
    → ((i : ℕ) → (i == k) ≡ false → P i (old i))
    → (i : ℕ) → P i (put k new old i)
put-rule P k new old here elsewhere i = elim (Bool-cases (i == k)) [
  | inl same ↦ rw same (subst (λ j. P j new) (sym ((==_iff i k).0 same)) here)
  | inr other ↦ rw other (elsewhere i other)
]

-- What holds of both branches.
pub if-rule :
    {A : Type 0} (P : A → Type 0) (b : Bool) (x y : A)
    → (b ≡ true → P x)
    → (b ≡ false → P y)
    → P (if b then x else y)
if-rule P true x y f g = f refl
if-rule P false x y f g = g refl

-- A budget's new version, where the operation keeps its slot.
pub record Replaces (free : Option ℕ) (waiting : List ℕ) (stopped : ℕ → Bool) (b : ℕ)
    (old new : Budget) : Type 0 where
  pub same_slot : new.is_admitted ≡ old.is_admitted
  pub finished :
      (new.is_finished ≡ old.is_finished)
      ⊎ ((opt_eq free (some b) ≡ true) × (elem b waiting ≡ false))
  pub single : length new.tasks ≤ 1
  pub from_old : (t : ℕ) → elem t new.tasks ≡ true → elem t old.tasks ≡ true
  pub left : (t : ℕ) → elem t old.tasks ≡ true → (stopped t ≡ true) ⊎ (elem t new.tasks ≡ true)

module _ (free : Option ℕ) (p : Policy) (active waiting : List ℕ) (next : ℕ) (budgets : ℕ → Budget)
    (due : List (ℕ × ℕ)) (stopped : ℕ → Bool)
    (c : IsConsistent free p active waiting next budgets due stopped) where
  pub put-IsConsistent :
      (b : ℕ) (new : Budget)
      → Replaces free waiting stopped b (budgets b) new
      → IsConsistent free p active waiting next (put b new budgets) due stopped
  put-IsConsistent b new r = record {
    active_few = c.active_few;
    waiting_few = c.waiting_few;
    slots =
        put-rule (λ i x. elem i active ≡ x.is_admitted) b new budgets (c.slots b ∙ sym r.same_slot)
          (λ i ne. c.slots i);
    held =
        put-rule
          (λ i x.
            opt_eq free (some i) ≡ false
            → x.is_admitted ≡ true
            → (x.is_finished ≡ false) ⊎ (has_due i due ≡ true))
          b new budgets
          (λ other slot. ground (arith, other, slot, r.same_slot, r.finished, c.held b))
          (λ i ne. c.held i);
    queued =
        put-rule (λ i x. elem i waiting ≡ true → (x.is_finished ≡ false) × (x.is_admitted ≡ false))
          b new budgets (λ e. ground (arith, e, c.queued b, r.finished, r.same_slot))
          (λ i ne. c.queued i);
    distinct = c.distinct;
    occupied =
        put-rule (λ i x. (t : ℕ) → elem t x.tasks ≡ true → x.is_admitted ≡ true) b new budgets
          (λ t e. r.same_slot ∙ c.occupied b t (r.from_old t e)) (λ i ne. c.occupied i);
    single = put-rule (λ i x. length x.tasks ≤ 1) b new budgets r.single (λ i ne. c.single i);
    called =
        put-rule (λ i x. (t : ℕ) → elem t x.tasks ≡ true → any (is_call i t) due ≡ true) b new
          budgets (λ t e. c.called b t (r.from_old t e)) (λ i ne. c.called i);
    attached =
        put-rule
          (λ i x.
            (t : ℕ) → any (is_call i t) due ≡ true → (stopped t ≡ true) ⊎ (elem t x.tasks ≡ true))
          b new budgets
          (λ t e. elim (c.attached b t e) [ inl stops ↦ inl stops | inr there ↦ r.left t there ])
          (λ i ne. c.attached i);
    fresh = c.fresh;
  }

  -- Looking at one operation's slot.
  pub freed-IsConsistent :
      (b : ℕ) → free ≡ none → IsConsistent (some b) p active waiting next budgets due stopped
  freed-IsConsistent b nothing = record {
    active_few = c.active_few;
    waiting_few = c.waiting_few;
    slots = c.slots;
    held = λ i other slot. c.held i (ap (λ x. opt_eq x (some i)) nothing) slot;
    queued = c.queued;
    distinct = c.distinct;
    occupied = c.occupied;
    single = c.single;
    called = c.called;
    attached = c.attached;
    fresh = c.fresh;
  }
