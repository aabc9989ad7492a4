-- ===== src/Screener/Breadth.antt =====
-- `computeBreadthStats` of CockpitUI/src/domain/screener.ts.
use trader_cockpit_app.Prelude.{
  ℕ, ◌≤◌, String, Bool, true, false, not, ◌&&◌, ◌≡◌, refl, arith, Option, none, some, get_or, map,
  nat_eq, List, [], ◌∷◌, filter, length, length-filter-le, is_some, if◌then◌else◌, ltb,
}
use trader_cockpit_app.Js.Numbers.{Numbers, zero_n, neg_infinity}
use trader_cockpit_app.Screener.Rows.{
  ScreenerRow, row_price, pct_from_reference, decorate, decorate_rows,
}

module _ (N : Numbers) where
  open N use {Number, lit, sub, mul, div, lt, eq}

  pub record ScreenerBreadthStat : Type 0 where
    pub key : String
    pub label : String
    pub count : ℕ
    pub eligible : ℕ
    pub pct : Number

  unfoldable pub ratio : ℕ → ℕ → Number
  ratio count eligible =
      if ltb 0 eligible then mul (div (lit count 1) (lit eligible 1)) (lit 100 1) else zero_n N

  -- `(value ?? -Infinity) > 0`.
  abbrev pub is_positive : Option Number → Bool
  is_positive value = lt (zero_n N) (get_or value (neg_infinity N))

  -- One entry of the answer: the eligible rows, and those of them whose value is positive.
  unfoldable pub stat :
      String
      → String
      → (ScreenerRow N → Bool)
      → (ScreenerRow N → Option Number)
      → List (ScreenerRow N)
      → ScreenerBreadthStat
  unfolding ratio
  stat key label is_eligible value rows =
      let eligible = filter is_eligible rows in
      let count = length (filter (λ r. is_positive (value r)) eligible) in
      record {
        key = key;
        label = label;
        count = count;
        eligible = length eligible;
        pct = ratio count (length eligible);
      }

  unfoldable pub compute_breadth_stats : List (ScreenerRow N) → List ScreenerBreadthStat
  unfolding stat
  compute_breadth_stats rows =
      stat "dvwap" "Above DVWAP" (λ r. is_some r.display_price && is_some r.daily_vwap)
        (λ r. r.dvwap_delta_pct) rows
      ∷ stat "ema50" "Above 50 EMA" (λ r. is_some r.display_price && is_some r.ema_50)
          (λ r. r.ema50_delta_pct) rows
      ∷ stat "ema200" "Above 200 EMA" (λ r. is_some r.display_price && is_some r.ema_200)
          (λ r. r.ema200_delta_pct) rows
      ∷ stat "week" "Positive Week" (λ r. is_some r.week_return_pct) (λ r. r.week_return_pct) rows
      ∷ []

  -- The change of a price from a reference is known and positive.
  abbrev pub stands_above : Option Number → Option Number → Bool
  stands_above (some p) (some r) =
      not (eq r (zero_n N)) && lt (zero_n N) (mul (div (sub p r) r) (lit 100 1))
  stands_above _ _ = false

  abbrev pub both_known : Option Number → Option Number → Bool
  both_known (some p) (some r) = true
  both_known _ _ = false

  abbrev pub has_risen : Option Number → Bool
  has_risen none = false
  has_risen (some w) = lt (zero_n N) w

  -- How many rows pass a test.
  abbrev pub number_of : (ScreenerRow N → Bool) → List (ScreenerRow N) → ℕ
  number_of p rows = length (filter p rows)

  -- A statistic of these rows: who is eligible, and who is counted.
  pub record IsStat (counts eligible : ScreenerRow N → Bool) (rows : List (ScreenerRow N))
      (s : ScreenerBreadthStat) : Type 0 where
    pub counted : s.count ≡ number_of counts rows
    pub eligible_rows : s.eligible ≡ number_of eligible rows
    pub bounded : s.count ≤ s.eligible
    pub percentage : s.pct ≡ (
        if nat_eq s.eligible 0
        then zero_n N
        else mul (div (lit s.count 1) (lit s.eligible 1)) (lit 100 1))

  -- The four statistics of rows, in their order.
  abbrev pub AreBreadth : List (ScreenerRow N) → List ScreenerBreadthStat → Type 0
  AreBreadth raw (dvwap ∷ fifty ∷ two_hundred ∷ week ∷ []) =
      IsStat (λ r. stands_above (row_price N r) r.daily_vwap)
        (λ r. both_known (row_price N r) r.daily_vwap) raw dvwap
      × IsStat (λ r. stands_above (row_price N r) r.ema_50)
          (λ r. both_known (row_price N r) r.ema_50) raw fifty
      × IsStat (λ r. stands_above (row_price N r) r.ema_200)
          (λ r. both_known (row_price N r) r.ema_200) raw two_hundred
      × IsStat (λ r. has_risen r.week_return_pct) (λ r. is_some r.week_return_pct) raw week
  AreBreadth raw _ = ⊥

  number_eligible :
      (f : ScreenerRow N → ScreenerRow N) (p q : ScreenerRow N → Bool)
      → ((r : ScreenerRow N) → p (f r) ≡ q r)
      → (rows : List (ScreenerRow N)) → number_of p (map f rows) ≡ number_of q rows
  number_eligible f p q h [] = refl
  number_eligible f p q h (r ∷ rs) = ground (arith, h r, number_eligible f p q h rs)

  number_counted :
      (f : ScreenerRow N → ScreenerRow N) (p e q : ScreenerRow N → Bool)
      → ((r : ScreenerRow N) → (e (f r) && p (f r)) ≡ q r)
      → (rows : List (ScreenerRow N)) → number_of p (filter e (map f rows)) ≡ number_of q rows
  number_counted f p e q h [] = refl
  number_counted f p e q h (r ∷ rs) = ground (arith, h r, number_counted f p e q h rs)

  known-both : (p r : Option Number) → (is_some p && is_some r) ≡ both_known p r
  known-both none r = refl
  known-both (some p) none = refl
  known-both (some p) (some r) = refl

  counted-above :
      (p r : Option Number)
      → (is_some p && is_some r && is_positive (pct_from_reference N p r)) ≡ stands_above p r
  unfolding pct_from_reference
  counted-above none r = refl
  counted-above (some p) none = refl
  counted-above (some p) (some r) = ground (arith, N.neg_infinity_not_positive)

  counted-risen : (w : Option Number) → (is_some w && is_positive w) ≡ has_risen w
  counted-risen none = refl
  counted-risen (some w) = refl

  stat-IsStat :
      (key label : String) (is_eligible : ScreenerRow N → Bool)
      (value : ScreenerRow N → Option Number) (counts eligible : ScreenerRow N → Bool)
      → ((r : ScreenerRow N)
          → (is_eligible (decorate N r) && is_positive (value (decorate N r))) ≡ counts r)
      → ((r : ScreenerRow N) → is_eligible (decorate N r) ≡ eligible r)
      → (raw : List (ScreenerRow N))
      → IsStat counts eligible raw (stat key label is_eligible value (decorate_rows N raw))
  unfolding stat decorate_rows ratio
  stat-IsStat key label is_eligible value counts eligible c e raw = record {
    counted = number_counted (decorate N) (λ r. is_positive (value r)) is_eligible counts c raw;
    eligible_rows = number_eligible (decorate N) is_eligible eligible e raw;
    bounded = length-filter-le _ (filter is_eligible (map (decorate N) raw));
    percentage = ground arith;
  }

  -- Of the rows as they come from the service: the first three statistics take as eligible the rows
  -- whose price and reference (the daily VWAP, the EMA of 50 and of 200 days) are known, and count
  -- those among them whose change from a reference other than 0 is positive; the fourth takes the rows
  -- with a return of the week and counts those where it is positive. The percentage is that of the
  -- counted among the eligible rows, and 0 where there are none.
  pub compute_breadth_stats-AreBreadth :
      (raw : List (ScreenerRow N)) → AreBreadth raw (compute_breadth_stats (decorate_rows N raw))
  unfolding compute_breadth_stats decorate
  compute_breadth_stats-AreBreadth raw = (
    stat-IsStat _ _ _ (λ r. r.dvwap_delta_pct) _ _ (λ r. counted-above (row_price N r) r.daily_vwap)
        (λ r. known-both (row_price N r) r.daily_vwap) raw,
    stat-IsStat _ _ _ (λ r. r.ema50_delta_pct) _ _ (λ r. counted-above (row_price N r) r.ema_50)
        (λ r. known-both (row_price N r) r.ema_50) raw,
    stat-IsStat _ _ _ (λ r. r.ema200_delta_pct) _ _ (λ r. counted-above (row_price N r) r.ema_200)
        (λ r. known-both (row_price N r) r.ema_200) raw,
    stat-IsStat _ _ _ (λ r. r.week_return_pct) _ _ (λ r. counted-risen r.week_return_pct)
        (λ r. refl) raw,
  )
