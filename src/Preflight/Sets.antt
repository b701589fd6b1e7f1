-- ===== src/Preflight/Sets.antt =====
-- Python's `set` and `deque` of objects that are compared by identity: lists of numbers.
use payments_portal.Base.{
  ℕ, ◌≡◌, refl, Bool, true, false, List, [], ◌∷◌, ◌++◌, ◌==◌, ◌&&◌, ◌||◌, not, if◌then◌else◌,
  select, arith, length, ◌≤◌, ◌+◌,
}

abbrev pub elem : ℕ → List ℕ → Bool
elem x [] = false
elem x (y ∷ ys) = (y == x) || elem x ys

-- `set.add`
abbrev pub add : ℕ → List ℕ → List ℕ
add x xs = if elem x xs then xs else xs ++ (x ∷ [])

-- `set.discard`
unfoldable pub discard : ℕ → List ℕ → List ℕ
discard x xs = select (λ y. not (y == x)) xs

-- `deque.remove` under its test: the first one goes.
unfoldable pub remove : ℕ → List ℕ → List ℕ
remove x [] = []
remove x (y ∷ ys) = if y == x then ys else y ∷ remove x ys

abbrev pub is_empty : List ℕ → Bool
is_empty [] = true
is_empty (x ∷ xs) = false

-- No element twice.
abbrev pub Distinct : List ℕ → Type 0
Distinct [] = Unit
Distinct (x ∷ xs) = (elem x xs ≡ false) × Distinct xs

pub elem-append : (x : ℕ) (xs ys : List ℕ) → elem x (xs ++ ys) ≡ (elem x xs || elem x ys)
elem-append x [] ys = refl
elem-append x (y ∷ xs) ys = ground (arith, elem-append x xs ys)

pub elem-discard : (x y : ℕ) (xs : List ℕ) → elem y (discard x xs) ≡ (not (y == x) && elem y xs)
unfolding discard
elem-discard x y [] = ground arith
elem-discard x y (z ∷ xs) = ground (arith, elem-discard x y xs)

pub length-discard-le : (x : ℕ) (xs : List ℕ) → length (discard x xs) ≤ length xs
unfolding discard
length-discard-le x [] = omega arith
length-discard-le x (y ∷ xs) = ground (arith, length-discard-le x xs)

-- Of an element that is there, at least one is discarded.
pub length-discard-lt :
    (x : ℕ) (xs : List ℕ) → elem x xs ≡ true → length (discard x xs) + 1 ≤ length xs
unfolding discard
length-discard-lt x [] h = cc h
length-discard-lt x (y ∷ xs) h = ground (arith, h, length-discard-le x xs, length-discard-lt x xs)

pub length-remove-le : (x : ℕ) (xs : List ℕ) → length (remove x xs) ≤ length xs
unfolding remove
length-remove-le x [] = omega arith
length-remove-le x (y ∷ xs) = ground (arith, length-remove-le x xs)

-- What is left was there.
pub elem-remove : (x y : ℕ) (xs : List ℕ) → elem y (remove x xs) ≡ true → elem y xs ≡ true
unfolding remove
elem-remove x y [] h = h
elem-remove x y (z ∷ xs) h = ground (arith, h, elem-remove x y xs)

pub remove-Distinct : (x : ℕ) (xs : List ℕ) → Distinct xs → Distinct (remove x xs)
unfolding remove
remove-Distinct x [] h = tt
remove-Distinct x (y ∷ xs) h =
    ground (arith, h.0, h.1, remove-Distinct x xs h.1, elem-remove x y xs)

-- An element that is there once is gone.
pub removed : (x : ℕ) (xs : List ℕ) → Distinct xs → elem x (remove x xs) ≡ false
unfolding remove
removed x [] h = refl
removed x (y ∷ xs) h = ground (arith, h.0, removed x xs h.1)

pub append-Distinct :
    (x : ℕ) (xs : List ℕ) → elem x xs ≡ false → Distinct xs → Distinct (xs ++ (x ∷ []))
append-Distinct x [] h d = (refl, tt)
append-Distinct x (y ∷ xs) h d = (
  ground (arith, h, d.0, elem-append y xs (x ∷ [])),
  append-Distinct x xs (ground (arith, h)) d.1,
)
