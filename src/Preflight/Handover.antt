-- ===== src/Preflight/Handover.antt =====
-- A slot that is given back has its next operation at once, in the order of the queue.
use payments_portal.Base.{
  All-map, ℕ, ◌≡◌, ◌<◌, inl, inr, refl, Bool, Bool-cases, true, false, List, [], ◌∷◌, ◌++◌, All,
  not, ◌&&◌, ◌==◌, ==_iff, ltb, leb, length, arith, subst, sym, ap, ◌∙◌,
}
use payments_portal.Preflight.Sets.{elem, discard, remove, is_empty, length-discard-lt}
use payments_portal.Preflight.Budgets.{Budget, deadline_exceeded}
use payments_portal.Preflight.Admission.{
  Admission, granted, refused, is_done, put, resolve, activate, serve, release_loop, release,
  release_if_finished, finish,
}
use payments_portal.Preflight.Sound.{IsSound, if-rule, put-rule}
use payments_portal.Preflight.Sound.Releases.{elem-add}

-- The operation still waits, within its deadline.
abbrev pub is_live : ℕ → Admission → ℕ → Bool
is_live now s w = not (is_done (s.waiters w)) && not (leb (s.budgets w).work_deadline now)

abbrev HasSlot : ℕ → Admission → Type 0
HasSlot w s = (s.waiters w ≡ granted) × (elem w s.active ≡ true)

serve-HasSlot : (now x w : ℕ) (s : Admission) → HasSlot w s → HasSlot w (serve now x s)
unfolding serve
serve-HasSlot now x w s h =
    if-rule (HasSlot w) (is_done (s.waiters x)) s _ (λ over. h)
      (λ open_one.
        let other : (w == x) ≡ false = elim (Bool-cases (w == x)) [
          | inr different ↦ different
          | inl same ↦
              let at_x = subst (λ i. s.waiters i ≡ granted) ((==_iff w x).0 same) h.0 in
              ground (arith, at_x, open_one)
        ] in
        if-rule (HasSlot w) (leb (s.budgets x).work_deadline now)
          (resolve x (refused deadline_exceeded) s) (resolve x granted (activate x s))
          (λ late. (ground (arith, other, h.0), h.1))
          (λ early. (ground (arith, other, h.0), elem-add x w s.active ∙ ground (arith, h.1))))

loop-HasSlot :
    (now w : ℕ) (queue : List ℕ) (s : Admission)
    → HasSlot w s
    → HasSlot w (release_loop now queue s)
unfolding release_loop
loop-HasSlot now w [] s h = h
loop-HasSlot now w (x ∷ queue) s h =
    if-rule (HasSlot w) (not s.is_closed && ltb (length s.active) s.policy.max_active)
      (release_loop now queue (serve now x s)) (record s { waiting = x ∷ queue })
      (λ room. loop-HasSlot now w queue (serve now x s) (serve-HasSlot now x w s h)) (λ full. h)

-- What serving an operation that no longer waits leaves.
record Passes (now w : ℕ) (s r : Admission) : Type 0 where
  same_room :
      (not r.is_closed && ltb (length r.active) r.policy.max_active)
      ≡ (not s.is_closed && ltb (length s.active) s.policy.max_active)
  stays_over : (y : ℕ) → is_live now s y ≡ false → is_live now r y ≡ false
  stays_live : is_live now s w ≡ true → is_live now r w ≡ true

serve-Passes :
    (now x w : ℕ) (s : Admission)
    → is_live now s x ≡ false
    → is_live now s w ≡ true
    → Passes now w s (serve now x s)
unfolding serve
serve-Passes now x w s over live =
    if-rule (Passes now w s) (is_done (s.waiters x)) s _
      (λ done_one. record { same_room = refl; stays_over = λ y h. h; stays_live = λ h. h })
      (λ open_one.
        if-rule (Passes now w s) (leb (s.budgets x).work_deadline now)
          (resolve x (refused deadline_exceeded) s) (resolve x granted (activate x s))
          (λ late. record {
            same_room = refl;
            stays_over = λ y h. ground (arith, h);
            stays_live = λ h.
                let other : (w == x) ≡ false = elim (Bool-cases (w == x)) [
                  | inr different ↦ different
                  | inl same ↦
                      let at_x = subst (λ i. is_live now s i ≡ true) ((==_iff w x).0 same) live in
                      cc (at_x, over)
                ] in
                ground (arith, other, live);
          })
          (λ early. ground (arith, over, open_one, early)))

serve_live : (now w : ℕ) (s : Admission) → is_live now s w ≡ true → HasSlot w (serve now w s)
unfolding serve
serve_live now w s live =
    let waits : is_done (s.waiters w) ≡ false = ground (arith, live) in
    let early : leb (s.budgets w).work_deadline now ≡ false = ground (arith, live) in
    rw (waits, early, serve) (ground arith, elem-add w w s.active ∙ ground arith)

loop_reaches :
    (now w : ℕ) (before after : List ℕ) (s : Admission)
    → (not s.is_closed && ltb (length s.active) s.policy.max_active) ≡ true
    → All (λ x. is_live now s x ≡ false) before
    → is_live now s w ≡ true
    → HasSlot w (release_loop now (before ++ (w ∷ after)) s)
unfolding release_loop
loop_reaches now w [] after s room over live =
    rw (room, release_loop) (loop-HasSlot now w after (serve now w s) (serve_live now w s live))
loop_reaches now w (x ∷ before) after s room over live =
    let p = serve-Passes now x w s over.0 live in
    rw (room, release_loop)
      (loop_reaches now w before after (serve now x s) (p.same_room ∙ room)
        (All-map (λ y. is_live now s y ≡ false) (λ y. is_live now (serve now x s) y ≡ false)
          p.stays_over before over.1)
        (p.stays_live live))

pub remove-absent : (x : ℕ) (xs : List ℕ) → elem x xs ≡ false → remove x xs ≡ xs
unfolding remove
remove-absent x [] h = refl
remove-absent x (y ∷ xs) h = ground (arith, h, remove-absent x xs)

deadline_kept :
    (k : ℕ) (new : Budget) (budgets : ℕ → Budget)
    → new.work_deadline ≡ (budgets k).work_deadline
    → (y : ℕ) → (put k new budgets y).work_deadline ≡ (budgets y).work_deadline
deadline_kept k new budgets e =
    put-rule (λ i x. x.work_deadline ≡ (budgets i).work_deadline) k new budgets e (λ i ne. refl)

as_live :
    (now : ℕ) (s : Admission) (y deadline : ℕ)
    → deadline ≡ (s.budgets y).work_deadline
    → (not (is_done (s.waiters y)) && not (leb deadline now)) ≡ is_live now s y
as_live now s y deadline e = ap (λ d. not (is_done (s.waiters y)) && not (leb d now)) e

settled_hands_over :
    (now b w : ℕ) (before after : List ℕ) (s : Admission)
    → ((s.budgets b).is_finished && ((s.budgets b).is_admitted && is_empty (s.budgets b).tasks))
      ≡ true
    → s.is_closed ≡ false
    → length (discard b s.active) < s.policy.max_active
    → s.waiting ≡ before ++ (w ∷ after)
    → All (λ x. is_live now s x ≡ false) before
    → is_live now s w ≡ true
    → HasSlot w (release_if_finished now b s)
unfolding release_if_finished release
settled_hands_over now b w before after s over_now is_open room queue over live =
    let new = record (s.budgets b) { is_admitted = false } in
    let given = record s { budgets = put b new s.budgets; active = discard b s.active } in
    let same = deadline_kept b new s.budgets refl in
    rw (over_now, release_if_finished)
      (subst (λ q. HasSlot w (release_loop now q given)) (sym queue)
        (loop_reaches now w before after given (ground (arith, is_open, room))
          (All-map (λ y. is_live now s y ≡ false) (λ y. is_live now given y ≡ false)
            (λ y dead. as_live now s y _ (same y) ∙ dead) before over)
          (as_live now s w _ (same w) ∙ live)))

-- An operation with a slot and without a task that ends, in a sound admission that is open, hands
-- its slot to the first of the queue that still waits within its deadline.
pub finish_hands_over :
    (now b w : ℕ) (before after : List ℕ) (s : Admission)
    → IsSound s
    → s.is_closed ≡ false
    → elem b s.active ≡ true
    → (s.budgets b).tasks ≡ []
    → s.waiting ≡ before ++ (w ∷ after)
    → All (λ x. is_live now s x ≡ false) before
    → is_live now s w ≡ true
    → ((finish now b s).waiters w ≡ granted) × (elem w (finish now b s).active ≡ true)
unfolding finish
finish_hands_over now b w before after s h is_open slot idle queue over live =
    let c = h.consistent in
    let new = record (s.budgets b) { is_finished = true } in
    let admitted : (s.budgets b).is_admitted ≡ true = sym (c.slots b) ∙ slot in
    let unqueued : elem b s.waiting ≡ false = elim (Bool-cases (elem b s.waiting)) [
      | inr absent ↦ absent
      | inl there ↦ cc (admitted, (c.queued b there).1)
    ] in
    let same = deadline_kept b new s.budgets refl in
    let no_task : is_empty (s.budgets b).tasks ≡ true = ap is_empty idle in
    settled_hands_over now b w before after
      (record s { waiting = remove b s.waiting; budgets = put b new s.budgets })
      (ground (arith, admitted, no_task)) is_open
      (omega (arith, length-discard-lt b s.active slot, c.active_few))
      (remove-absent b s.waiting unqueued ∙ queue)
      (All-map (λ y. is_live now s y ≡ false) _ (λ y dead. as_live now s y _ (same y) ∙ dead) before
        over)
      (as_live now s w _ (same w) ∙ live)
