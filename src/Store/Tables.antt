-- ===== src/Store/Tables.antt =====
-- A table is the list of its rows, in the order in which a query meets them. `put` writes a changed
-- row back over the rows with its key, as the unit of work does for a loaded object.
use payments_portal.Base.{
  ℕ, ◌≡◌, ◌≢◌, refl, Bool, false, Option, some, List, [], ◌∷◌, ◌==◌, find?, All, if◌then◌else◌,
  arith, Bool-cases, sym, inl, ◌∙◌, inr,
}

module _ {Row : Type 0} (key : Row → ℕ) where
  -- `db.get`, or a query by the key that meets at most one row
  abbrev pub get : ℕ → List Row → Option Row
  get k rows = find? (λ r. key r == k) rows

  abbrev pub put : Row → List Row → List Row
  put new [] = []
  put new (r ∷ rows) = if key r == key new then new ∷ put new rows else r ∷ put new rows

  pub get-put_self :
      (new : Row) (rows : List Row) {old : Row}
      → get (key new) rows ≡ some old
      → get (key new) (put new rows) ≡ some new
  get-put_self new [] h = ground arith
  get-put_self new (r ∷ rows) {old} h = ground (arith, get-put_self new rows {old = old})

  pub get-put_ne :
      (k : ℕ) (new : Row) (rows : List Row) → key new ≢ k → get k (put new rows) ≡ get k rows
  get-put_ne k new [] h = refl
  get-put_ne k new (r ∷ rows) h = ground (arith, get-put_ne k new rows h)

  pub get-key : (k : ℕ) (rows : List Row) {row : Row} → get k rows ≡ some row → key row ≡ k
  get-key k [] h = ground arith
  get-key k (r ∷ rows) {row} h = ground (arith, get-key k rows {row = row})

  -- The key is a primary key: a row is found under its own key.
  abbrev pub IsKeyed : List Row → Type 0
  IsKeyed rows = All (λ r. get (key r) rows ≡ some r) rows

  All-put :
      (P Q : Row → Type 0) (new : Row) (rows : List Row)
      → P new
      → ((r : Row) → Q r → key r ≢ key new → P r)
      → All Q rows
      → All P (put new rows)
  All-put P Q new [] n f h = tt
  All-put P Q new (r ∷ rows) n f h = elim (Bool-cases (key r == key new)) [
    | inl same ↦ rw same (n, All-put P Q new rows n f h.1)
    | inr other ↦ rw other (f r h.0 (ground arith), All-put P Q new rows n f h.1)
  ]

  pub put-IsKeyed :
      (new : Row) (rows : List Row) {old : Row}
      → get (key new) rows ≡ some old
      → IsKeyed rows
      → IsKeyed (put new rows)
  put-IsKeyed new rows {old} h keyed =
      All-put (λ r. get (key r) (put new rows) ≡ some r) (λ r. get (key r) rows ≡ some r) new rows
        (get-put_self new rows {old = old} h)
        (λ r found ne. get-put_ne (key r) new rows (λ e. ne (sym e)) ∙ found) keyed

  -- A test that a change of the row does not touch is found the same before and after.
  pub find?-put_other :
      (p : Row → Bool) (new : Row) (rows : List Row)
      → ((r : Row) → key r ≡ key new → p r ≡ false)
      → p new ≡ false
      → find? p (put new rows) ≡ find? p rows
  find?-put_other p new [] h e = refl
  find?-put_other p new (r ∷ rows) h e = ground (arith, h r, find?-put_other p new rows h e)
