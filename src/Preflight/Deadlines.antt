-- ===== src/Preflight/Deadlines.antt =====
-- How long a read may take, and what a new operation meets.
use payments_portal.Base.{
  ℕ, ◌≡◌, ◌≤◌, ◌<◌, ok, err, refl, Bool, inl, inr, true, false, none_or, [], ◌∷◌, ◌++◌, not, ◌&&◌,
  ◌==◌, ltb, leb, Bool-cases, ◌⊎◌, length, arith, ap, ◌∙◌, ◌+◌, ◌-◌,
}
use payments_portal.Preflight.Sets.{elem, add, is_empty}
use payments_portal.Preflight.Budgets.{
  Policy, Budget, is_valid, new_budget, check_budget, remaining, drain_time, saturated, Attempt,
}
use payments_portal.Preflight.Admission.{
  Admission, Entry, still_waits, enters_now, queues, put, enter, admit, checked, with_budget,
  finish, release_if_finished, activate,
}
use payments_portal.Preflight.Sound.{IsSound, IsBusy, if-rule}
use payments_portal.Preflight.Handover.{remove-absent}

-- Under a valid policy, a read that may start at `now` has some time left. If its wait ends within
-- that time, at `soon`, the wait for its cancelled task has the whole cleanup timeout and ends within
-- the total timeout after the operation asked for a slot. Whenever that wait begins, at any `later`,
-- it has no more than the cleanup timeout and no more than the total timeout leaves, and it has one
-- of the two.
pub read_time_bounds :
    (p : Policy) (asked now left soon later : ℕ) (closed : Bool)
    → is_valid p ≡ true
    → remaining now closed (new_budget asked p) ≡ ok left
    → soon ≤ now + left
    → (0 < left)
      × (drain_time soon p (new_budget asked p) ≡ p.cleanup_timeout)
      × (soon + drain_time soon p (new_budget asked p) ≤ asked + p.total_timeout)
      × (drain_time later p (new_budget asked p) ≤ p.cleanup_timeout)
      × (drain_time later p (new_budget asked p) ≤ asked + p.total_timeout - later)
      × ((drain_time later p (new_budget asked p) ≡ p.cleanup_timeout)
          ⊎ (drain_time later p (new_budget asked p) ≡ asked + p.total_timeout - later))
unfolding is_valid remaining check_budget new_budget drain_time
read_time_bounds p asked now left soon later closed valid starts within =
    let room : leb (asked + p.total_timeout - p.cleanup_timeout) now ≡ false =
      ground (arith, starts) in
    let time : left ≡ asked + p.total_timeout - p.cleanup_timeout - now =
      ground (arith, starts, room) in
    (
      ground (arith, time, room),
      ground (arith, time, room, within, valid),
      ground (arith, time, room, within, valid),
      ground arith,
      ground arith,
      elim (Bool-cases (leb p.cleanup_timeout (asked + p.total_timeout - later))) [
        | inl all ↦ inl (ground arith)
        | inr short ↦ inr (ground arith)
      ],
    )

new_passes :
    (now : ℕ) (p : Policy) (admitted : Bool)
    → is_valid p ≡ true
    → check_budget now false (record (new_budget now p) { is_admitted = admitted }) ≡ ok tt
unfolding is_valid check_budget new_budget
new_passes now p admitted valid = ground (arith, valid)

passes-checked :
    (now b : ℕ) (entry : Entry) (s : Admission)
    → check_budget now s.is_closed (s.budgets b) ≡ ok tt
    → checked now b entry s ≡ (ok entry, s)
unfolding checked
passes-checked now b entry s h = simp (h, checked) refl

put_here : (k : ℕ) (new : Budget) (old : ℕ → Budget) → put k new old k ≡ new
put_here k new old = ground arith

entered :
    (now loop : ℕ) (s : Admission)
    → s.is_closed ≡ false
    → none_or (λ l. l == loop) s.event_loop ≡ true
    → enter now loop s ≡ admit now s.next_number (with_budget now loop s)
unfolding enter
entered now loop s is_open own =
    let result = admit now s.next_number (with_budget now loop s) in
    if-rule (λ r. r ≡ result) s.is_closed _ _ (λ shut. cc (shut, is_open))
      (λ _.
        if-rule (λ r. r ≡ result) (not (none_or (λ l. l == loop) s.event_loop)) _ _
          (λ foreign. ground (arith, foreign, own)) (λ known. refl))

abbrev queued : ℕ → Admission → Admission
queued b s = record s { waiters = put b still_waits s.waiters; waiting = s.waiting ++ (b ∷ []) }

admit_free :
    (now b : ℕ) (s : Admission)
    → length s.active < s.policy.max_active
    → s.waiting ≡ []
    → check_budget now s.is_closed (record (s.budgets b) { is_admitted = true }) ≡ ok tt
    → admit now b s ≡ (ok enters_now, activate b s)
unfolding admit
admit_free now b s room nobody passes =
    let result : Attempt Entry × Admission = (ok enters_now, activate b s) in
    let new = record (s.budgets b) { is_admitted = true } in
    if-rule (λ r. r ≡ result) (ltb (length s.active) s.policy.max_active && is_empty s.waiting) _ _
      (λ free.
        passes-checked now b enters_now (activate b s)
          (ap (check_budget now s.is_closed) (put_here b new s.budgets) ∙ passes))
      (λ taken. ground (arith, taken, room, ap is_empty nobody))

admit_queue :
    (now b : ℕ) (s : Admission)
    → length s.active ≡ s.policy.max_active
    → length s.waiting < s.policy.max_waiting
    → check_budget now s.is_closed (s.budgets b) ≡ ok tt
    → admit now b s ≡ (ok queues, queued b s)
unfolding admit
admit_queue now b s full room passes =
    let result : Attempt Entry × Admission = (ok queues, queued b s) in
    if-rule (λ r. r ≡ result) (ltb (length s.active) s.policy.max_active && is_empty s.waiting) _ _
      (λ free. ground (arith, free, full))
      (λ _.
        if-rule (λ r. r ≡ result) (leb s.policy.max_waiting (length s.waiting)) _ _
          (λ crowded. ground (arith, crowded, room))
          (λ _. passes-checked now b queues (queued b s) passes))

admit_saturated :
    (now b : ℕ) (s : Admission)
    → length s.active ≡ s.policy.max_active
    → length s.waiting ≡ s.policy.max_waiting
    → admit now b s ≡ (err saturated, finish now b s)
unfolding admit
admit_saturated now b s full crowded =
    let result : Attempt Entry × Admission = (err saturated, finish now b s) in
    if-rule (λ r. r ≡ result) (ltb (length s.active) s.policy.max_active && is_empty s.waiting) _ _
      (λ free. ground (arith, free, full))
      (λ _.
        if-rule (λ r. r ≡ result) (leb s.policy.max_waiting (length s.waiting)) _ _ (λ _. refl)
          (λ room. ground (arith, crowded, room)))

-- An operation that never had a slot and is not in the queue leaves no trace there.
finish_unadmitted :
    (now b : ℕ) (s : Admission)
    → (s.budgets b).is_admitted ≡ false
    → elem b s.waiting ≡ false
    → ((finish now b s).active ≡ s.active) × ((finish now b s).waiting ≡ s.waiting)
unfolding finish release_if_finished
finish_unadmitted now b s idle absent =
    let new = record (s.budgets b) { is_finished = true } in
    if-rule (λ (r : Admission). (r.active ≡ s.active) × (r.waiting ≡ s.waiting))
      ((put b new s.budgets b).is_finished
        && ((put b new s.budgets b).is_admitted && is_empty (put b new s.budgets b).tasks))
      _ _ (λ over. ground (arith, over, idle)) (λ held. (refl, remove-absent b s.waiting absent))

no_queue : (s : Admission) → IsBusy s → length s.active < s.policy.max_active → s.waiting ≡ []
no_queue s (inl nobody) room = nobody
no_queue s (inr full) room = ground (arith, full.1, room)

unadmitted_passes :
    (now b : ℕ) (s : Admission)
    → (s.budgets b).is_admitted ≡ false
    → check_budget now s.is_closed (record (s.budgets b) { is_admitted = false }) ≡ ok tt
    → check_budget now s.is_closed (s.budgets b) ≡ ok tt
unfolding check_budget
unadmitted_passes now b s idle h = h

-- What an operation meets that asks a sound, open admission on its event loop under a valid policy:
-- a free slot is its own at once, else it is the last of the queue, and only where the slots and the
-- queue are full is it refused as saturated, which leaves both as they were.
pub enter_outcomes :
    (now loop : ℕ) (s : Admission)
    → IsSound s
    → is_valid s.policy ≡ true
    → s.is_closed ≡ false
    → none_or (λ l. l == loop) s.event_loop ≡ true
    → let (outcome, s') = enter now loop s in
      (length s.active < s.policy.max_active
        → (outcome ≡ ok enters_now) × (s'.active ≡ add s.next_number s.active))
      × (length s.active ≡ s.policy.max_active
          → length s.waiting < s.policy.max_waiting
          → (outcome ≡ ok queues) × (s'.waiting ≡ s.waiting ++ (s.next_number ∷ [])))
      × (length s.active ≡ s.policy.max_active
          → length s.waiting ≡ s.policy.max_waiting
          → (outcome ≡ err saturated) × (s'.active ≡ s.active) × (s'.waiting ≡ s.waiting))
unfolding new_budget
enter_outcomes now loop s h valid is_open own =
    let b = s.next_number in
    let new = new_budget now s.policy in
    let t = with_budget now loop s in
    let here : t.budgets b ≡ new = put_here b new s.budgets in
    let passes : (admitted : Bool)
        → check_budget now s.is_closed (record (t.budgets b) { is_admitted = admitted }) ≡ ok tt =
      λ admitted.
        ap (λ c. check_budget now c (record (t.budgets b) { is_admitted = admitted })) is_open
        ∙ (ap (λ (x : Budget). check_budget now false (record x { is_admitted = admitted })) here
            ∙ new_passes now s.policy admitted valid) in
    let (unqueued, absent, _) = h.consistent.fresh b (omega arith) in
    let idle : (t.budgets b).is_admitted ≡ false = ap (λ (x : Budget). x.is_admitted) here in
    let start = entered now loop s is_open own in
    (
      λ room.
          let e = start ∙ admit_free now b t room (no_queue s h.busy room) (passes true) in
          (
            ap (λ (r : Attempt Entry × Admission). r.0) e,
            ap (λ (r : Attempt Entry × Admission). r.1.active) e,
          ),
      λ full room.
          let e =
            start ∙ admit_queue now b t full room (unadmitted_passes now b t idle (passes false)) in
          (
            ap (λ (r : Attempt Entry × Admission). r.0) e,
            ap (λ (r : Attempt Entry × Admission). r.1.waiting) e,
          ),
      λ full crowded.
          let e = start ∙ admit_saturated now b t full crowded in
          let left = finish_unadmitted now b t idle unqueued in
          (
            ap (λ (r : Attempt Entry × Admission). r.0) e,
            ap (λ (r : Attempt Entry × Admission). r.1.active) e ∙ left.0,
            ap (λ (r : Attempt Entry × Admission). r.1.waiting) e ∙ left.1,
          ),
    )
