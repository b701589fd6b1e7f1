-- ===== src/Purchases/Snapshot/Identity.antt =====
-- Which stored texts pass for a provider identity, and what a failure may show of itself.
use payments_portal.Store.{text, Failure, Scalar, null, other}
use payments_portal.Purchases.Snapshot.{
  is_provider_id, proven_identity, safe_failure, failure_code, text, known_or, within, Failure,
  int32_min, int32_max, unknown_reason, known_failure_reasons, financial_source_failure,
  known_failure_codes, Scalar, number,
}
use payments_portal.Base.{
  ℕ, ◌≡◌, ◌⊎◌, inl, inr, refl, sym, subst, ok, ◌<◌, Text, true, ◌^◌, str, int, some, int-str, arith,
  ◌↔◌, length-str_pos, text_eq→eq, length-str, all-str, text_eq_refl, any, text_eq, List,
  Bool-cases,
}
use payments_portal.Base.Int.{ℤ, pos, ◌≤ℤ◌}

is_provider_id-str : (n : ℕ) → 0 < n → n < 10 ^ 20 → is_provider_id (str n) ≡ true
unfolding is_provider_id
is_provider_id-str n low high =
    rw (int-str n)
      (ground (arith, length-str_pos n, length-str n 19 high, all-str n, text_eq_refl (str n)))

is_provider_id_sound :
    (t : Text) → is_provider_id t ≡ true → (0 < int t) × (int t < 10 ^ 20) × (t ≡ str (int t))
unfolding is_provider_id
is_provider_id_sound t h = ground (arith, text_eq→eq (str (int t)) t)

-- A stored text is accepted as a provider identity exactly when it is the decimal text of a number
-- that a receipt can carry, from 1 to 10 ^ 20 - 1; any other text is refused.
pub proven_identity_iff :
    (t : Text)
    → (proven_identity (text t) ≡ ok (some t)) ↔ ((n : ℕ) × (0 < n) × (n < 10 ^ 20) × (t ≡ str n))
unfolding proven_identity
proven_identity_iff t = (
  λ h.
      let passed : is_provider_id t ≡ true = ground arith in
      let (low, high, e) = is_provider_id_sound t passed in (int t, low, high, e),
  λ (n, low, high, e).
      let passed : is_provider_id t ≡ true =
        subst (λ s. is_provider_id s ≡ true) (sym e) (is_provider_id-str n low high) in
      ground arith,
)

within-bounds :
    (low high : ℤ) (s : Scalar) (n : ℤ) → within low high s ≡ some n → (low ≤ℤ n) × (n ≤ℤ high)
unfolding within
within-bounds low high (number k) n h = ground arith
within-bounds low high null n h = ground arith
within-bounds low high (text t) n h = ground arith
within-bounds low high other n h = ground arith

known_or-known :
    (known : List Text) (default : Text) (s : Scalar)
    → (known_or known default s ≡ default) ⊎ (any (text_eq (known_or known default s)) known ≡ true)
unfolding known_or
known_or-known known default (text t) = elim (Bool-cases (any (text_eq t) known)) [
  | inl yes_known ↦ rw yes_known (inr yes_known)
  | inr strange ↦ rw strange (inl refl)
]
known_or-known known default null = inl refl
known_or-known known default (number n) = inl refl
known_or-known known default other = inl refl

-- What `_operation` shows of a recorded failure is bounded: an HTTP status between 100 and 599, a
-- code of 32 bits, and a reason and a code out of the known ones, whatever the document holds.
pub safe_failure_bounds :
    (f : Failure)
    → ((n : ℤ) → (safe_failure f).status ≡ some n → (pos 100 ≤ℤ n) × (n ≤ℤ pos 599))
      × ((n : ℤ) → (safe_failure f).code ≡ some n → (int32_min ≤ℤ n) × (n ≤ℤ int32_max))
      × (((safe_failure f).reason ≡ unknown_reason)
          ⊎ (any (text_eq (safe_failure f).reason) known_failure_reasons ≡ true))
      × ((failure_code f ≡ financial_source_failure)
          ⊎ (any (text_eq (failure_code f)) known_failure_codes ≡ true))
unfolding safe_failure failure_code
safe_failure_bounds f = (
  within-bounds (pos 100) (pos 599) f.http_status,
  within-bounds int32_min int32_max f.lbx_code,
  known_or-known known_failure_reasons unknown_reason f.reason,
  known_or-known known_failure_codes financial_source_failure f.code,
)
