-- ===== src/Preflight/Sound/Calls.antt =====
-- The callbacks that are due, and what is left of them when one is called.
use payments_portal.Base.{
  ℕ, ◌≡◌, true, false, some, List, [], ◌∷◌, not, ◌&&◌, ◌==◌, any, select, opt_eq, arith,
}
use payments_portal.Preflight.Sets.{elem, is_empty}
use payments_portal.Preflight.Sources.{is_call}
use payments_portal.Preflight.Sound.{has_due}

pub first_task : (xs : List ℕ) → is_empty xs ≡ false → (t : ℕ) × (elem t xs ≡ true)
first_task [] h = cc h
first_task (x ∷ xs) h = (x, ground arith)

pub due_call : (b t : ℕ) (due : List (ℕ × ℕ)) → any (is_call b t) due ≡ true → has_due b due ≡ true
due_call b t [] h = h
due_call b t (call ∷ due) h = ground (arith, h, due_call b t due)

pub still_due :
    (b t i : ℕ) (due : List (ℕ × ℕ))
    → opt_eq (some b) (some i) ≡ false
    → has_due i due ≡ true
    → has_due i (select (λ call. not (is_call b t call)) due) ≡ true
still_due b t i [] other h = h
still_due b t i (call ∷ due) other h = ground (arith, other, h, still_due b t i due other)

pub fewer_due :
    (b t i : ℕ) (due : List (ℕ × ℕ))
    → has_due i due ≡ false
    → has_due i (select (λ call. not (is_call b t call)) due) ≡ false
fewer_due b t i [] h = h
fewer_due b t i (call ∷ due) h = ground (arith, h, fewer_due b t i due)

pub other_call :
    (b t i u : ℕ) (due : List (ℕ × ℕ))
    → ((i == b) && (u == t)) ≡ false
    → any (is_call i u) due ≡ true
    → any (is_call i u) (select (λ call. not (is_call b t call)) due) ≡ true
other_call b t i u [] other h = h
other_call b t i u (call ∷ due) other h = ground (arith, other, h, other_call b t i u due other)

pub was_call :
    (b t i u : ℕ) (due : List (ℕ × ℕ))
    → any (is_call i u) (select (λ call. not (is_call b t call)) due) ≡ true
    → any (is_call i u) due ≡ true
was_call b t i u [] h = h
was_call b t i u (call ∷ due) h = ground (arith, h, was_call b t i u due)
