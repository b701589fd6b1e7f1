-- ===== src/Purchases/Current/Held.antt =====
-- The current purchase of a product is the one that holds it.
use payments_portal.Purchases.Current.{held_snapshot, current_purchase, Outcome, attribute_error}
use payments_portal.Purchases.Contracts.{Purchase}
use payments_portal.Purchases.Snapshot.{snapshot}
use payments_portal.Store.{Db, hold, owned, ScopeHold, PurchaseIntent, Outcome, attribute_error}
use payments_portal.Base.{
  ℕ, Option, none, some, ok, Text, Bool, ◌≡◌, some_and, true, find?-holds, text_eq, ◌==◌, arith,
  ◌&&◌, text_eq→eq, ap, All, ◌∙◌, All-find?, >>=-eq-ok, subst, or_raise, Option-cases, inl,
  or_raise-eq-ok, ==_iff, inr, sym,
}

-- The held purchase is stored, and it is a purchase of the held product (the foreign key of
-- `BillingPurchaseScopeHold`).
abbrev pub is_held_product : Db → ScopeHold → Bool
is_held_product db h =
    some_and (λ r. text_eq r.product_id h.product_id) (owned db h.user_id h.purchase_intent_id)

-- What the caller is shown.
abbrev pub IsCurrent : Db → ℕ → Text → Option Purchase → Type 0
IsCurrent db user product_id none = hold db user product_id ≡ none
IsCurrent db user product_id (some p) =
    (h : ScopeHold) × (hold db user product_id ≡ some h)
    × ((p.id ≡ h.purchase_intent_id) × ((p.user_id ≡ user) × (p.held ≡ true)))

snapshot-columns :
    (db : Db) (row : PurchaseIntent) {p : Purchase}
    → snapshot db row ≡ ok p
    → (p.id ≡ row.purchase_intent_id)
      × (p.user_id ≡ row.user_id)
      × (p.held
          ≡ some_and
              (λ h. h.purchase_intent_id == row.purchase_intent_id)
              (hold db row.user_id row.product_id))
unfolding snapshot
snapshot-columns db row h = ground arith

hold-columns :
    (db : Db) (user : ℕ) (product_id : Text) {h : ScopeHold}
    → hold db user product_id ≡ some h
    → (h.user_id ≡ user) × (h.product_id ≡ product_id)
unfolding hold
hold-columns db user product_id {h} e =
    let t = find?-holds (λ x. (x.user_id == user) && text_eq x.product_id product_id) db.holds e in
    ground (arith, t, text_eq→eq h.product_id product_id)

owned-columns :
    (db : Db) (user purchase_id : ℕ) {row : PurchaseIntent}
    → owned db user purchase_id ≡ some row
    → (row.user_id ≡ user) × (row.purchase_intent_id ≡ purchase_id)
unfolding owned
owned-columns db user purchase_id {row} e =
    let t =
      find?-holds (λ r. (r.user_id == user) && (r.purchase_intent_id == purchase_id)) db.intents
        e in
    ground (arith, t)

same_shown : (a b : Option Purchase) → ◌≡◌ {A = Outcome (Option Purchase)} (ok a) (ok b) → a ≡ b
same_shown a b e = ground (arith, e)

held_product :
    (db : Db) (h : ScopeHold) (user : ℕ) {row : PurchaseIntent}
    → h.user_id ≡ user
    → owned db user h.purchase_intent_id ≡ some row
    → is_held_product db h ≡ true
    → row.product_id ≡ h.product_id
held_product db h user {row} own stored fits =
    let there : owned db h.user_id h.purchase_intent_id ≡ some row =
      ap (λ u. owned db u h.purchase_intent_id) own ∙ stored in
    text_eq→eq row.product_id h.product_id
      (subst (λ o. some_and (λ r. text_eq r.product_id h.product_id) o ≡ true) there fits)

held-IsSound :
    (db : Db) (user : ℕ) (product_id : Text) {h : ScopeHold}
    → All (λ x. is_held_product db x ≡ true) db.holds
    → hold db user product_id ≡ some h
    → is_held_product db h ≡ true
unfolding hold
held-IsSound db user product_id sound held =
    All-find? (λ x. is_held_product db x ≡ true)
      (λ x. (x.user_id == user) && text_eq x.product_id product_id) db.holds sound held

held_snapshot-IsCurrent :
    (db : Db) (user : ℕ) (product_id : Text) (h : ScopeHold) {shown : Option Purchase}
    → hold db user product_id ≡ some h
    → is_held_product db h ≡ true
    → held_snapshot db user h.purchase_intent_id ≡ ok shown
    → IsCurrent db user product_id shown
unfolding held_snapshot
held_snapshot-IsCurrent db user product_id h {shown} held fits e =
    let (row, read, e1) =
      >>=-eq-ok (or_raise (owned db user h.purchase_intent_id) attribute_error) _ e in
    let (p, taken, e2) = >>=-eq-ok (snapshot db row) _ e1 in
    let stored = or_raise-eq-ok (owned db user h.purchase_intent_id) attribute_error read in
    let (same_user, same_id) = owned-columns db user h.purchase_intent_id stored in
    let (own, product) = hold-columns db user product_id held in
    let (id, of_user, is_held) = snapshot-columns db row taken in
    let same_product : row.product_id ≡ product_id =
      held_product db h user own stored fits ∙ product in
    let found : hold db row.user_id row.product_id ≡ some h =
      ap (λ u. hold db u row.product_id) same_user ∙ ap (λ t. hold db user t) same_product ∙ held in
    subst (IsCurrent db user product_id) (same_shown (some p) shown e2) (
      h,
      held,
      (
        id ∙ same_id,
        (
          of_user ∙ same_user,
          is_held
              ∙ ap (λ o. some_and (λ x. x.purchase_intent_id == row.purchase_intent_id) o) found
              ∙ (==_iff h.purchase_intent_id row.purchase_intent_id).1 (sym same_id),
        ),
      ),
    )

-- Where each hold names a stored purchase of its user and product: `current_purchase` shows the
-- signed-in user the purchase that holds the product, as a held one of that user, and shows none
-- only where the user holds none for the product.
pub current_purchase-IsCurrent :
    (session : Outcome ℕ) (product_id : Text) (db : Db) {shown : Option Purchase}
    → All (λ h. is_held_product db h ≡ true) db.holds
    → current_purchase session product_id db ≡ ok shown
    → (user : ℕ) × (session ≡ ok user) × IsCurrent db user product_id shown
unfolding current_purchase
current_purchase-IsCurrent session product_id db {shown} sound e =
    let (user, signed, e1) = >>=-eq-ok session _ e in
    elim (Option-cases (hold db user product_id)) [
      | inl nothing ↦ (
        user,
        signed,
        subst (IsCurrent db user product_id) (same_shown none shown (rw nothing at e1)) nothing,
      )
      | inr (h, held) ↦ (
        user,
        signed,
        held_snapshot-IsCurrent db user product_id h held
            (held-IsSound db user product_id sound held) (rw held at e1),
      )
    ]
