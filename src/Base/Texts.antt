-- ===== src/Base/Texts.antt =====
-- Texts as lists of code points, with Python's `str` and `int` on natural numbers.
use Prim.Native.Nat.{ℕ, zero, suc, ◌+◌, ◌-◌, ◌*◌, ◌/◌, ◌%◌, ◌^◌, ◌≤◌, ◌<◌}
use Prim.Native.Char.{code}
use Prim.Native.String.{String}
use mathlib.Core.Path.{◌≡◌, refl, sym, ap, ◌∙◌}
use mathlib.Core.Logic.{inl, inr}
use mathlib.Core.Option.{Option, none, some}
use native.Mathlib.Nat.{pow-suc}
use mathlib.Core.Bool.{Bool, true, false, ◌&&◌}
use mathlib.Core.List.{List, [], ◌∷◌, ◌++◌}
use native.Mathlib.Omega.{arith}
use payments_portal.Base.Tests.{ltb, leb, ◌==◌, lt→ltb, Bool-cases}
use payments_portal.Base.Lists.{length, all, length-append}

abbrev pub Text : Type 0
Text = List ℕ

abbrev pub codes : String → Text
codes String.[] = []
codes (String.◌∷◌ c s) = code c ∷ codes s

unfoldable pub text_eq : Text → Text → Bool
text_eq [] [] = true
text_eq [] (y ∷ ys) = false
text_eq (x ∷ xs) [] = false
text_eq (x ∷ xs) (y ∷ ys) = (x == y) && text_eq xs ys

pub text_eq→eq : (s t : Text) → text_eq s t ≡ true → s ≡ t
unfolding text_eq
text_eq→eq [] [] h = refl
text_eq→eq [] (y ∷ ys) h = ground arith
text_eq→eq (x ∷ xs) [] h = ground arith
text_eq→eq (x ∷ xs) (y ∷ ys) h = ground (arith, text_eq→eq xs ys)

pub text_eq_refl : (s : Text) → text_eq s s ≡ true
unfolding text_eq
text_eq_refl [] = refl
text_eq_refl (x ∷ xs) = ground (arith, text_eq_refl xs)

abbrev pub opt_text_eq : Option Text → Option Text → Bool
opt_text_eq none none = true
opt_text_eq (some s) (some t) = text_eq s t
opt_text_eq _ _ = false

pub opt_text_eq→eq : (s t : Option Text) → opt_text_eq s t ≡ true → s ≡ t
opt_text_eq→eq none none h = refl
opt_text_eq→eq (some s) (some t) h = ap (λ x. some x) (text_eq→eq s t h)
opt_text_eq→eq none (some t) h = cc h
opt_text_eq→eq (some s) none h = cc h

pub opt_text_eq_refl : (s : Option Text) → opt_text_eq s s ≡ true
opt_text_eq_refl none = refl
opt_text_eq_refl (some s) = text_eq_refl s

-- `str(n)`: the digit of the last place behind the text of the rest, on fuel.
digits_from : ℕ → ℕ → Text
digits_from zero n = []
digits_from (suc f) n = elim (ltb n 10) [
  | true ↦ (48 + n) ∷ []
  | false ↦ digits_from f (n / 10) ++ ((48 + n % 10) ∷ [])
]

-- More fuel than the number has digits.
unfoldable pub str : ℕ → Text
unfolding digits_from
str n = digits_from (suc n) n

-- `int(s)` for a text of ASCII digits.
int_from : ℕ → Text → ℕ
int_from acc [] = acc
int_from acc (c ∷ cs) = int_from (acc * 10 + (c - 48)) cs

unfoldable pub int : Text → ℕ
unfolding int_from
int = int_from 0

-- `s.isascii() and s.isdecimal()`, for one character
abbrev pub is_digit : ℕ → Bool
is_digit c = leb 48 c && leb c 57

int_from-append : (acc : ℕ) (s t : Text) → int_from acc (s ++ t) ≡ int_from (int_from acc s) t
unfolding int_from
int_from-append acc [] t = refl
int_from-append acc (c ∷ s) t = int_from-append (acc * 10 + (c - 48)) s t

digits_from-small : (f n : ℕ) → ltb n 10 ≡ true → digits_from (suc f) n ≡ (48 + n) ∷ []
unfolding digits_from
digits_from-small f n h = ground arith

digits_from-large :
    (f n : ℕ)
    → ltb n 10 ≡ false
    → digits_from (suc f) n ≡ digits_from f (n / 10) ++ ((48 + n % 10) ∷ [])
unfolding digits_from
digits_from-large f n h = ground arith

int_from-digits_from : (f n : ℕ) → n < f → int_from 0 (digits_from f n) ≡ n
int_from-digits_from zero n h = elim h [ ]
int_from-digits_from (suc f) n h = elim (Bool-cases (ltb n 10)) [
  | inl small ↦ rw (digits_from-small f n small) (unfold int_from in omega arith)
  | inr large ↦
      rw
        (
          digits_from-large f n large,
          int_from-append,
          int_from-digits_from f (n / 10) (ground arith),
        )
        (unfold int_from in omega arith)
]

pub int-str : (n : ℕ) → int (str n) ≡ n
unfolding int str
int-str n = int_from-digits_from (suc n) n (omega arith)

pub str-injective : (m n : ℕ) → str m ≡ str n → m ≡ n
str-injective m n e = sym (int-str m) ∙ ap int e ∙ int-str n

all-append : (p : ℕ → Bool) (s t : Text) → all p s ≡ true → all p t ≡ true → all p (s ++ t) ≡ true
all-append p [] t hs ht = ht
all-append p (c ∷ s) t hs ht = ground (arith, all-append p s t)

all-digits_from : (f n : ℕ) → all is_digit (digits_from f n) ≡ true
all-digits_from zero n = unfold digits_from in refl
all-digits_from (suc f) n = elim (Bool-cases (ltb n 10)) [
  | inl small ↦ rw (digits_from-small f n small) (ground arith)
  | inr large ↦ rw (digits_from-large f n large) (
      all-append is_digit (digits_from f (n / 10)) ((48 + n % 10) ∷ []) (all-digits_from f (n / 10))
        (ground arith))
]

pub all-str : (n : ℕ) → all is_digit (str n) ≡ true
unfolding str
all-str n = all-digits_from (suc n) n

div-lt : (n p : ℕ) → n < p * 10 → n / 10 < p
div-lt n p h = omega arith

length-digits_from : (f n k : ℕ) → n < 10 ^ suc k → length (digits_from f n) ≤ suc k
length-digits_from zero n k h = unfold digits_from in omega arith
length-digits_from (suc f) n zero h =
    rw (digits_from-small f n (lt→ltb n 10 (rw pow-suc at h))) (omega arith)
length-digits_from (suc f) n (suc k) h = elim (Bool-cases (ltb n 10)) [
  | inl small ↦ rw (digits_from-small f n small) (omega arith)
  | inr large ↦ rw (digits_from-large f n large) (
      omega (
        arith,
        length-append (digits_from f (n / 10)) ((48 + n % 10) ∷ []),
        length-digits_from f (n / 10) k (div-lt n (10 ^ suc k) (rw pow-suc at h)),
      ))
]

pub length-str : (n k : ℕ) → n < 10 ^ suc k → length (str n) ≤ suc k
unfolding str
length-str n k h = length-digits_from (suc n) n k h

length-digits_from_pos : (f n : ℕ) → 0 < length (digits_from (suc f) n)
length-digits_from_pos f n = elim (Bool-cases (ltb n 10)) [
  | inl small ↦ rw (digits_from-small f n small) (omega arith)
  | inr large ↦
      rw (digits_from-large f n large)
        (omega (arith, length-append (digits_from f (n / 10)) ((48 + n % 10) ∷ [])))
]

pub length-str_pos : (n : ℕ) → 0 < length (str n)
unfolding str
length-str_pos n = length-digits_from_pos n n
