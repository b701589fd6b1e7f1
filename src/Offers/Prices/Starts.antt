-- ===== src/Offers/Prices/Starts.antt =====
-- The latest start of a price and the earliest later one, and what a selection of rows keeps.
use payments_portal.Base.{
  Option, ℕ, List, ◌≤◌, some, All, arith, none, All-map, inl, [], inr, ◌<◌, some_and, Bool-cases,
  Bool, map, leb, select, ◌≡◌, false, true, subst, refl, sym,
}
use payments_portal.Offers.Prices.{latest, earliest}
use mathlib.Core.List.{List, ◌∷◌, map}

pub latest-upper : (s : ℕ) (ts : List ℕ) → (s ≤ latest s ts) × All (λ t. t ≤ latest s ts) ts
unfolding latest
latest-upper s [] = (omega arith, tt)
latest-upper s (t ∷ ts) =
    let (low, all_low) = latest-upper s ts in
    let step : latest s ts ≤ latest s (t ∷ ts) = ground arith in
    (
      omega (arith, low, step),
      (
        ground arith,
        All-map (λ u. u ≤ latest s ts) (λ u. u ≤ latest s (t ∷ ts)) (λ u h. omega (arith, h, step))
            ts all_low,
      ),
    )

-- Not before the end of the interval, and before it, where there is an end.
abbrev pub IsPast : Option ℕ → ℕ → Type 0
IsPast none t = ⊥
IsPast (some u) t = u ≤ t

abbrev pub IsBefore : Option ℕ → ℕ → Type 0
IsBefore none t = Unit {0}
IsBefore (some u) t = t < u

pub IsPast-earlier :
    (o : Option ℕ) (t u : ℕ) → some_and (λ v. leb v t) o ≡ false → IsPast o u → t ≤ u
IsPast-earlier none t u h p = elim p [ ]
IsPast-earlier (some v) t u h p = ground (arith, p)

pub IsPast-here : (o : Option ℕ) (t : ℕ) → some_and (λ v. leb v t) o ≡ true → IsPast o t
IsPast-here none t h = cc
IsPast-here (some v) t h = ground arith

pub earliest-keeps :
    (t : ℕ) (ts : List ℕ)
    → some_and (λ u. leb u t) (earliest ts) ≡ true
    → earliest (t ∷ ts) ≡ earliest ts
unfolding earliest
earliest-keeps t ts h = rw h refl

pub earliest-takes :
    (t : ℕ) (ts : List ℕ)
    → some_and (λ u. leb u t) (earliest ts) ≡ false
    → earliest (t ∷ ts) ≡ some t
unfolding earliest
earliest-takes t ts h = rw h refl

pub earliest-lower : (ts : List ℕ) → All (IsPast (earliest ts)) ts
earliest-lower [] = tt
earliest-lower (t ∷ ts) = elim (Bool-cases (some_and (λ u. leb u t) (earliest ts))) [
  | inl kept ↦
      subst (λ o. All (IsPast o) (t ∷ ts)) (sym (earliest-keeps t ts kept))
        (IsPast-here (earliest ts) t kept, earliest-lower ts)
  | inr new ↦
      subst (λ o. All (IsPast o) (t ∷ ts)) (sym (earliest-takes t ts new))
        (
          omega arith,
          All-map (IsPast (earliest ts)) (λ u. t ≤ u)
              (λ u p. IsPast-earlier (earliest ts) t u new p) ts (earliest-lower ts),
        )
]

-- What holds of all starts holds of the earliest.
pub IsBefore-earliest : (t : ℕ) (ts : List ℕ) → All (λ u. t < u) ts → IsBefore (earliest ts) t
unfolding earliest
IsBefore-earliest t [] h = tt
IsBefore-earliest t (u ∷ ts) h = elim (Bool-cases (some_and (λ v. leb v u) (earliest ts))) [
  | inl kept ↦ rw (kept, earliest) (IsBefore-earliest t ts h.1)
  | inr new ↦ rw (new, earliest) h.0
]

module _ {A : Type 0} (P : A → Type 0) where
  pub All-unselect :
      (p : A → Bool) (xs : List A) → All P (select p xs) → All (λ x. p x ≡ true → P x) xs
  All-unselect p [] h = tt
  All-unselect p (x ∷ xs) h = elim (Bool-cases (p x)) [
    | inl kept ↦ let (here, rest) = (rw kept at h) in ((λ _. here), All-unselect p xs rest)
    | inr dropped ↦ ((λ e. cc), All-unselect p xs (rw dropped at h))
  ]

  pub All-select_where :
      (p : A → Bool) (xs : List A) → All (λ x. p x ≡ true → P x) xs → All P (select p xs)
  All-select_where p [] h = tt
  All-select_where p (x ∷ xs) h = elim (Bool-cases (p x)) [
    | inl kept ↦ rw kept (h.0 kept, All-select_where p xs h.1)
    | inr dropped ↦ rw dropped (All-select_where p xs h.1)
  ]

  pub All-of_map : {B : Type 0} (f : B → A) (xs : List B) → All P (map f xs) → All (λ x. P (f x)) xs
  All-of_map f [] h = tt
  All-of_map f (x ∷ xs) h = (h.0, All-of_map f xs h.1)

  pub All-map_of : {B : Type 0} (f : B → A) (xs : List B) → All (λ x. P (f x)) xs → All P (map f xs)
  All-map_of f [] h = tt
  All-map_of f (x ∷ xs) h = (h.0, All-map_of f xs h.1)

pub select-holds : {A : Type 0} (p : A → Bool) (xs : List A) → All (λ x. p x ≡ true) (select p xs)
select-holds p [] = tt
select-holds p (x ∷ xs) = elim (Bool-cases (p x)) [
  | inl kept ↦ rw kept (kept, select-holds p xs)
  | inr dropped ↦ rw dropped (select-holds p xs)
]
