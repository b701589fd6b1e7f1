-- ===== src/Offers/Prices/Interval.antt =====
-- The half-open interval in which the chosen price row holds.
use payments_portal.Offers.Prices.Starts.{
  IsBefore, latest-upper, All-unselect, select-holds, IsPast, All-of_map, IsBefore-earliest,
  All-map_of, earliest-lower, All-select_where,
}
use payments_portal.Offers.Provider.{TariffPeriod}
use payments_portal.Commerce.{required, refused_incomplete, Refused}
use payments_portal.Base.{
  Option, ℕ, List, ◌≤◌, some, All, arith, All-map, inl, [], inr, ◌<◌, Bool-cases, map, leb, select,
  ◌≡◌, true, subst, refl, sym, ◌⊎◌, ok, ◌≢◌, some-injective, ◌∙◌, ◌==◌, ==_iff, >>=-eq-ok,
  or_raise-eq-ok, Result, All-select, ltb, ap,
}
use payments_portal.Offers.Prices.{
  latest, earliest, Listing, dated, latest_start, only, required, applicable_price, TariffPeriod,
  started_by, starting_at, starting_after, schedule_fits,
}
use mathlib.Core.List.{Memᴰ, List, ◌∷◌, map}

-- What `applicable_price` proves of the row that it gives: it is a listed row of the period, the date
-- lies in its half-open interval, and no other row of the period starts within it.
pub record Applies {A : Type 0} (rows : Listing A) (prices : List A) (id date : ℕ) (row : A)
    (until : Option ℕ) : Type 0 where
  pub start : ℕ
  pub listed : Memᴰ row prices
  pub of_period : rows.period_of row ≡ id
  pub starts_at : rows.start_of row ≡ some start
  pub begun : start ≤ date
  pub not_over : IsBefore until date
  pub next_start :
      All
        (λ r.
          rows.period_of r ≡ id → (s : ℕ) → rows.start_of r ≡ some s → (s ≤ start) ⊎ IsPast until s)
        prices

ok-injective : {a b : ℕ} → ◌≡◌ {A = Result Refused ℕ} (ok a) (ok b) → a ≡ b
ok-injective h = ground arith

module _ {A : Type 0} (rows : Listing A) where
  -- What the dated rows are.
  abbrev IsDated : ℕ → List A → ℕ × A → Type 0
  IsDated id prices d = Memᴰ d.1 prices × (rows.period_of d.1 ≡ id) × (rows.start_of d.1 ≡ some d.0)

  dated_cases :
      (id : ℕ) (r : A) (rs : List A) {ds : List (ℕ × A)}
      → dated rows id (r ∷ rs) ≡ ok ds
      → ((rows.period_of r ≢ id) × (dated rows id rs ≡ ok ds))
        ⊎ ((start : ℕ) × (rest : List (ℕ × A)) × (rows.period_of r ≡ id)
            × (rows.start_of r ≡ some start)
            × (dated rows id rs ≡ ok rest)
            × (ds ≡ (start, r) ∷ rest))
  unfolding dated
  dated_cases id r rs {ds} h = elim (Bool-cases (rows.period_of r == id)) [
    | inr other ↦
        inl ((λ e. cc (other, (==_iff (rows.period_of r) id).1 e)), rw (other, dated) at h)
    | inl same ↦
        let (start, is_start, h1) =
          >>=-eq-ok (required (rows.start_of r) "price_start_unknown") _ (rw (same, dated) at h) in
        let (rest, is_rest, h2) = >>=-eq-ok (dated rows id rs) (λ ds. ok ((start, r) ∷ ds)) h1 in
        inr (
          start,
          rest,
          (==_iff (rows.period_of r) id).0 same,
          or_raise-eq-ok (rows.start_of r) (refused_incomplete "price_start_unknown") is_start,
          is_rest,
          ground arith,
        )
  ]

  dated-IsDated :
      (id : ℕ) (prices : List A) (ds : List (ℕ × A))
      → dated rows id prices ≡ ok ds
      → All (IsDated id prices) ds
  unfolding dated
  dated-IsDated id [] [] h = tt
  dated-IsDated id [] (d ∷ ds) h = cc
  dated-IsDated id (r ∷ rs) ds h =
      let later : (d : ℕ × A) → IsDated id rs d → IsDated id (r ∷ rs) d =
        λ d (listed, period, start). (Memᴰ.tail listed, period, start) in
      elim (dated_cases id r rs h) [
        | inl (_, rest) ↦
            All-map (IsDated id rs) (IsDated id (r ∷ rs)) later ds (dated-IsDated id rs ds rest)
        | inr (start, rest, period, is_start, is_rest, e) ↦
            subst (All (IsDated id (r ∷ rs))) (sym e) (
              (Memᴰ.head refl, period, is_start),
              All-map (IsDated id rs) (IsDated id (r ∷ rs)) later rest
                  (dated-IsDated id rs rest is_rest),
            )
      ]

  -- What holds of the dated rows holds of the rows of the period.
  dated-All :
      (id : ℕ) (prices : List A) (P : ℕ × A → Type 0) (ds : List (ℕ × A))
      → dated rows id prices ≡ ok ds
      → All P ds
      → All (λ r. rows.period_of r ≡ id → (s : ℕ) → rows.start_of r ≡ some s → P (s, r)) prices
  dated-All id [] P ds h all_ds = tt
  dated-All id (r ∷ rs) P ds h all_ds = elim (dated_cases id r rs h) [
    | inl (other, rest) ↦ ((λ e s is_s. absurd (other e)), dated-All id rs P ds rest all_ds)
    | inr (start, rest, period, is_start, is_rest, e) ↦
        let (here, others) = subst (All P) e all_ds in
        (
          (λ _ s is_s. subst (λ t. P (t, r)) (some-injective start s (sym is_start ∙ is_s)) here),
          dated-All id rs P rest is_rest others,
        )
  ]

  latest_start-upper :
      (ds : List (ℕ × A)) {start : ℕ} → latest_start rows ds ≡ ok start → All (λ d. d.0 ≤ start) ds
  latest_start-upper [] h = tt
  latest_start-upper ((s, r) ∷ ds) {start} h =
      let ts = map (λ (d : ℕ × A). d.0) ds in
      let (low, all_low) = latest-upper s ts in
      subst (λ t. All (λ (d : ℕ × A). d.0 ≤ t) ((s, r) ∷ ds)) (ok-injective h)
        (low, All-of_map (λ t. t ≤ latest s ts) (λ (d : ℕ × A). d.0) ds all_low)

  only-ok : (ds : List (ℕ × A)) {row : A} → only rows ds ≡ ok row → (s : ℕ) × (ds ≡ (s, row) ∷ [])
  only-ok [] h = cc
  only-ok ((s, r) ∷ []) h = (s, ground arith)
  only-ok ((s, r) ∷ (d ∷ ds)) h = cc

-- The steps of `applicable_price` when it returns.
record PriceRun {A : Type 0} (rows : Listing A) (prices : List A) (id date : ℕ) (row : A)
    (until : Option ℕ) : Type 0 where
  pub relevant : List (ℕ × A)
  pub start : ℕ
  pub found : ℕ
  pub is_dated : dated rows id prices ≡ ok relevant
  pub is_latest : latest_start rows (started_by rows date relevant) ≡ ok start
  pub is_only : starting_at rows start (started_by rows date relevant) ≡ (found, row) ∷ []
  pub is_end : earliest (map (λ (d : ℕ × A). d.0) (starting_after rows start relevant)) ≡ until

price_run :
    {A : Type 0} (rows : Listing A) (prices : List A) (period : TariffPeriod) (date : ℕ) {row : A}
    {until : Option ℕ}
    → applicable_price rows prices period date ≡ ok (row, until)
    → PriceRun rows prices period.period_id date row until
unfolding applicable_price
price_run {A} rows prices period date {row} {until} h =
    let (ds, is_dated, h1) = >>=-eq-ok (dated rows period.period_id prices) _ h in
    let soon = started_by rows date ds in
    let (start, is_start, h2) = >>=-eq-ok (latest_start rows soon) _ h1 in
    let (row', is_only, h3) = >>=-eq-ok (only rows (starting_at rows start soon)) _ h2 in
    let ends = earliest (map (λ (d : ℕ × A). d.0) (starting_after rows start ds)) in
    let (_, fits, h4) = >>=-eq-ok (schedule_fits period ends (rows.schedule_of row')) _ h3 in
    let (s, e) = only-ok rows (starting_at rows start soon) is_only in
    record {
      relevant = ds;
      start = start;
      found = s;
      is_dated = is_dated;
      is_latest = is_start;
      is_only = ground (arith, e, h4);
      is_end = ground (arith, h4);
    }

-- A start after `start` is past the date, where no start up to the date is after `start`.
after_date : (date start s : ℕ) → (leb s date ≡ true → s ≤ start) → ltb start s ≡ true → date < s
after_date date start s upper later = elim (Bool-cases (leb s date)) [
  | inl soon ↦ ground (arith, upper soon)
  | inr past ↦ ground arith
]

module _ {A : Type 0} (rows : Listing A) (prices : List A) (id date : ℕ) {row : A}
    {until : Option ℕ} (run : PriceRun rows prices id date row until) where
  abbrev Start : Type 0
  Start = ℕ × A

  run-upper : All (λ (d : Start). leb d.0 date ≡ true → d.0 ≤ run.start) run.relevant
  run-upper =
      All-unselect (λ (d : Start). d.0 ≤ run.start) (λ (d : Start). leb d.0 date) run.relevant
        (latest_start-upper rows (started_by rows date run.relevant) run.is_latest)

  run-chosen :
      IsDated rows id prices (run.found, row) × (run.found ≤ date) × (run.found ≡ run.start)
  run-chosen =
      let soon = started_by rows date run.relevant in
      let at_start = λ (d : Start). d.0 == run.start in
      let is_soon = λ (d : Start). leb d.0 date in
      let dated_row = subst (All (IsDated rows id prices)) run.is_only (
        All-select (IsDated rows id prices) at_start soon (
          All-select (IsDated rows id prices) is_soon run.relevant
            (dated-IsDated rows id prices run.relevant run.is_dated))) in
      let begun = subst (All (λ (d : Start). is_soon d ≡ true)) run.is_only (
        All-select (λ (d : Start). is_soon d ≡ true) at_start soon
          (select-holds is_soon run.relevant)) in
      let same =
        subst (All (λ (d : Start). at_start d ≡ true)) run.is_only (select-holds at_start soon) in
      (dated_row.0, ground (arith, begun.0), (==_iff run.found run.start).0 same.0)

  run-not_over : IsBefore until date
  run-not_over =
      let later = starting_after rows run.start run.relevant in
      subst (λ o. IsBefore o date) run.is_end
        (IsBefore-earliest date (map (λ (d : Start). d.0) later) (
          All-map_of (λ u. date < u) (λ (d : Start). d.0) later
            (All-select_where (λ (d : Start). date < d.0) (λ (d : Start). ltb run.start d.0)
              run.relevant
              (All-map (λ (d : Start). leb d.0 date ≡ true → d.0 ≤ run.start)
                (λ (d : Start). ltb run.start d.0 ≡ true → date < d.0)
                (λ d upper. after_date date run.start d.0 upper) run.relevant run-upper))))

  run-next_start : All (λ (d : Start). (d.0 ≤ run.start) ⊎ IsPast until d.0) run.relevant
  run-next_start =
      let later = λ (d : Start). ltb run.start d.0 in
      let past =
        All-unselect (λ (d : Start). IsPast until d.0) later run.relevant
          (All-of_map (IsPast until) (λ (d : Start). d.0) (select later run.relevant)
            (subst (λ o. All (IsPast o) (map (λ (d : Start). d.0) (select later run.relevant)))
              run.is_end
              (earliest-lower (map (λ (d : Start). d.0) (select later run.relevant))))) in
      All-map (λ (d : Start). later d ≡ true → IsPast until d.0)
        (λ (d : Start). (d.0 ≤ run.start) ⊎ IsPast until d.0)
        (λ d h. elim (Bool-cases (later d)) [
          | inl after ↦ inr (h after)
          | inr before ↦ inl (ground (arith, before))
        ])
        run.relevant past

-- A price that is applicable on a date is a listed row of the period, the date is neither before
-- its start nor past its end, and every other row of the period starts no later than it or not
-- before its end.
pub applicable_price-Applies :
    {A : Type 0} (rows : Listing A) (prices : List A) (period : TariffPeriod) (date : ℕ) {row : A}
    {until : Option ℕ}
    → applicable_price rows prices period date ≡ ok (row, until)
    → Applies rows prices period.period_id date row until
applicable_price-Applies {A} rows prices period date {row} {until} h =
    let id = period.period_id in
    let run = price_run rows prices period date h in
    let ((listed, of_period, is_start), begun, same) = run-chosen rows prices id date run in
    record {
      start = run.start;
      listed = listed;
      of_period = of_period;
      starts_at = is_start ∙ ap (λ s. some s) same;
      begun = subst (λ s. s ≤ date) same begun;
      not_over = run-not_over rows prices id date run;
      next_start =
          dated-All rows id prices (λ d. (d.0 ≤ run.start) ⊎ IsPast until d.0) run.relevant
            run.is_dated (run-next_start rows prices id date run);
    }
