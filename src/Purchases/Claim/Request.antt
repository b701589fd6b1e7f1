-- ===== src/Purchases/Claim/Request.antt =====
-- What a claim asks for: a first claim writes its request down, and a retry repeats the written one.
use payments_portal.Purchases.Contracts.{Purchase}
use payments_portal.Purchases.Claim.{
  retry_unproven, admit_claim, claimed, hinted_request, recovery_work,
}
use payments_portal.Store.{
  request_eq, Operation, RequestDocument, Moment, Work, PurchaseIntent, Db, agreement_request,
  subscription_request, is_not_sent,
}
use payments_portal.Base.{
  Option, some_and, ◌≡◌, true, false, List, arith, some, ◌⊎◌, text_eq→eq, Option-cases, ok,
  Bool-cases, inl, inr, subst, ◌∙◌, ap, refl,
}

pub request_eq→eq : (a b : RequestDocument) → request_eq a b ≡ true → a ≡ b
unfolding request_eq
request_eq→eq (agreement_request u o n d) (agreement_request u' o' n' d') h =
    ground (arith, text_eq→eq n n')
request_eq→eq (subscription_request a t p s q o) (subscription_request a' t' p' s' q' o') h =
    ground (arith, text_eq→eq o o')
request_eq→eq (agreement_request u o n d) (subscription_request a' t' p' s' q' o') h = cc h
request_eq→eq (subscription_request a t p s q o) (agreement_request u' o' n' d') h = cc h

hinted_same :
    (op : Operation) (request : RequestDocument)
    → some_and (λ r. request_eq r request) (hinted_request op) ≡ true
    → hinted_request op ≡ some request
hinted_same op request h = elim (Option-cases (hinted_request op)) [
  | inl nothing ↦ cc (subst (λ o. some_and (λ r. request_eq r request) o ≡ true) nothing h)
  | inr (r, there) ↦
      there
      ∙ ap (λ x. some x)
          (request_eq→eq r request
            (subst (λ o. some_and (λ r. request_eq r request) o ≡ true) there h))
]

retry_unproven-hint :
    (op : Operation) (work : Option Work) (request : RequestDocument)
    → retry_unproven op work request ≡ false
    → hinted_request op ≡ some request
unfolding retry_unproven
retry_unproven-hint op work request h = hinted_same op request (ground (arith, h))

-- A claim that is admitted on a proven no-send repeats the request of the operation's first send.
pub admit_claim-request :
    (m : Moment) (request : RequestDocument) (row : PurchaseIntent) (ops : List Operation)
    (op : Operation) (db : Db)
    → admit_claim m request row ops op db ≡ ok tt
    → (is_not_sent op.operation_state ≡ false) ⊎ (hinted_request op ≡ some request)
unfolding admit_claim
admit_claim-request m request row ops op db h =
    elim (Bool-cases (retry_unproven op (recovery_work db op.create_operation_id) request)) [
      | inl unproven ↦ inl (ground (arith, unproven, h))
      | inr proven ↦
          inr (retry_unproven-hint op (recovery_work db op.create_operation_id) request proven)
    ]

-- Either way the claimed operation has the request, and the time of its first send.
pub claimed-request :
    (m : Moment) (purchase : Purchase) (request : RequestDocument) (op : Operation)
    → (is_not_sent op.operation_state ≡ false) ⊎ (hinted_request op ≡ some request)
    → hinted_request (claimed m purchase request op) ≡ some request
unfolding claimed
claimed-request m purchase request op asked = elim (Bool-cases (is_not_sent op.operation_state)) [
  | inr first ↦ rw (first, claimed) refl
  | inl again ↦
      let hint : hinted_request op ≡ some request = elim asked [
        | inl fresh ↦ cc (again, fresh)
        | inr e ↦ e
      ] in
      rw (again, claimed) hint
]
