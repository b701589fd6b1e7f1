-- ===== src/Customers/Run/Batch.antt =====
-- `escalate_overdue_customers` is a sequence of single escalations.
use payments_portal.Customers.Overdue.{
  escalate_customers, first_due, escalate_overdue_customers, escalate_customer,
  overdue_customer_ids, plus_one, at_moments, sort_due, due_customers,
}
use payments_portal.Store.{Db, Moment, Error, Outcome}
use payments_portal.Base.{
  ℕ, ok, refl, Bool, ◌≡◌, ◌≤◌, List, [], true, All, arith, err, length, false, ◌+◌, ◌∷◌,
  Result-cases, suc, inr, Bool-cases, zero, inl, leb, ap, ◌&&◌, ◌∙◌,
}
use payments_portal.Customers.Run.{CustomerTransaction, run, apply, Db, Moment, escalates, Outcome}

abbrev pub is_escalation : CustomerTransaction → Bool
is_escalation (escalates m instant id) = true
is_escalation _ = false

-- What a batch of `n` customers amounts to, after `count` of them have been escalated.
pub record Ran (n count : ℕ) (db : Db) (r : Outcome ℕ × Db) : Type 0 where
  pub steps : List CustomerTransaction
  pub all_escalate : All (λ t. is_escalation t ≡ true) steps
  pub tables : run steps db ≡ r.1
  pub few : length steps ≤ n
  pub counted : (total : ℕ) → r.0 ≡ ok total → (count ≤ total) × (total ≤ count + n)

same_total : (a b : ℕ) → ◌≡◌ {A = Outcome ℕ} (ok a) (ok b) → a ≡ b
same_total a b h = ground (arith, h)

escalated_rows :
    (m : Moment) (instant id : ℕ) (db : Db) (escalated : Bool) (after : Db)
    → escalate_customer m instant id db ≡ ok (escalated, after)
    → apply (escalates m instant id) db ≡ after
unfolding apply
escalated_rows m instant id db escalated after h = rw (h, apply) refl

refused_rows :
    (m : Moment) (instant id : ℕ) (db : Db) (e : Error)
    → escalate_customer m instant id db ≡ err e
    → apply (escalates m instant id) db ≡ db
unfolding apply
refused_rows m instant id db e h = rw (h, apply) refl

plus_one_bounds : (b : Bool) (n : ℕ) → (n ≤ plus_one b n) × (plus_one b n ≤ n + 1)
plus_one_bounds true n = omega arith
plus_one_bounds false n = omega arith

escalate_customers-Ran :
    (rest : List (Moment × ℕ)) (instant count : ℕ) (db : Db)
    → Ran (length rest) count db (escalate_customers rest instant count db)
unfolding escalate_customers run
escalate_customers-Ran [] instant count db = record {
  steps = [];
  all_escalate = tt;
  tables = refl;
  few = omega arith;
  counted = λ total h. ground (arith, same_total count total h);
}
escalate_customers-Ran ((m, id) ∷ rest) instant count db =
    elim (Result-cases (escalate_customer m instant id db)) [
      | inr (e, refused) ↦
          rw (refused, escalate_customers)
            (record {
              steps = escalates m instant id ∷ [];
              all_escalate = (refl, tt);
              tables = refused_rows m instant id db e refused;
              few = omega arith;
              counted = λ total h. cc h;
            })
      | inl ((escalated, after), done) ↦
          let later = escalate_customers-Ran rest instant (plus_one escalated count) after in
          rw (done, escalate_customers)
            (record {
              steps = escalates m instant id ∷ later.steps;
              all_escalate = (refl, later.all_escalate);
              tables =
                  ap (run later.steps) (escalated_rows m instant id db escalated after done)
                  ∙ later.tables;
              few = omega (arith, later.few);
              counted =
                  λ total h. omega (arith, later.counted total h, plus_one_bounds escalated count);
            })
    ]

no_steps : (db : Db) → run [] db ≡ db
unfolding run
no_steps db = refl

length-first_due-le : (n : ℕ) (rows : List (ℕ × ℕ)) → length (first_due n rows) ≤ n
unfolding first_due
length-first_due-le n [] = omega arith
length-first_due-le zero (row ∷ rows) = omega arith
length-first_due-le (suc n) (row ∷ rows) = omega (arith, length-first_due-le n rows)

length-at_moments :
    (moments : ℕ → Moment) (k : ℕ) (ids : List ℕ) → length (at_moments moments k ids) ≡ length ids
length-at_moments moments k [] = refl
length-at_moments moments k (id ∷ ids) = omega (arith, length-at_moments moments (suc k) ids)

-- The batch over at most `limit` overdue customers: the tables behind it, whether it returns or
-- raises, are those behind a sequence of at most `limit` single escalations, and the number that it
-- returns is at most `limit`.
pub escalate_overdue_customers-runs :
    (moments : ℕ → Moment) (instant limit : ℕ) (db : Db)
    → let r = escalate_overdue_customers moments instant limit db in
      (ts : List CustomerTransaction) × All (λ t. is_escalation t ≡ true) ts
      × (run ts db ≡ r.1)
      × (length ts ≤ limit)
      × ((total : ℕ) → r.0 ≡ ok total → total ≤ limit)
unfolding escalate_overdue_customers overdue_customer_ids
escalate_overdue_customers-runs moments instant limit db =
    let ids = first_due limit (sort_due (due_customers instant db.operations)) in
    let rows = at_moments moments 0 ids in
    let few : length rows ≤ limit = omega (
      arith,
      length-at_moments moments 0 ids,
      length-first_due-le limit (sort_due (due_customers instant db.operations)),
    ) in
    let ran = escalate_customers-Ran rows instant 0 db in
    elim (Bool-cases (leb 1 limit && leb limit 100)) [
      | inl valid ↦ rw valid (
        ran.steps,
        ran.all_escalate,
        ran.tables,
        omega (arith, ran.few, few),
        λ total h. omega (arith, ran.counted total h, few),
      )
      | inr invalid ↦ rw invalid ([], tt, no_steps db, omega arith, λ total h. cc h)
    ]
