-- ===== src/Signals/Table/Sorting.antt =====
-- The order of the table of CockpitUI/src/components/signals/useSignalSort.ts.
use trader_cockpit_app.Prelude.{
  String, ◌==◌, Bool, true, ◌||◌, Option, none, some, List, [], ◌∷◌, ◌≡◌, refl, sym, subst, All,
  Bool-cases, inl, inr, filter, filter_by,
}
use trader_cockpit_app.Js.Numbers.{Numbers}
use trader_cockpit_app.Js.Collections.{Object}
use trader_cockpit_app.Js.Sort.{sort}
use trader_cockpit_app.Js.Order.{
  before_opt, Each, IsFinite, sub_lt, sub_lt-lt, sub_lt-IsWeakOrder, IsSortOf, sort-IsSortOf,
}
use trader_cockpit_app.Js.Text.{Locale, includes, trim}
use trader_cockpit_app.Signals.Types.{Signal}
use trader_cockpit_app.Signals.Market.{InstrumentMetrics}
use trader_cockpit_app.Signals.Table.{
  SignalSortKey, timestamp, price, volume_ratio, score, adv, chg_pct, f52h_pct, SortState,
  sort_value, metric, below_high, matching, sorted_filtered,
}

filter_all {ℓ} :
    {A : Type ℓ} (p : A → Bool) (xs : List A) → ((x : A) → p x ≡ true) → filter p xs ≡ xs
filter_all p [] h = refl
filter_all p (x ∷ xs) h = rw (h x, filter_all p xs h) refl

module _ (N : Numbers) (time_of : String → N.Number) where
  -- The distance of a price from the high of a year in percent, where the two are known.
  abbrev pub from_high : Option (N.Number) → Option (N.Number) → Option (N.Number)
  from_high (some p) (some high) = some (N.mul (N.sub (N.div p high) (N.lit 1 1)) (N.lit 100 1))
  from_high _ _ = none

  -- A figure of a symbol's metrics, where they are known.
  abbrev pub of_symbol :
      (InstrumentMetrics N → Option (N.Number)) → Option (InstrumentMetrics N) → Option (N.Number)
  of_symbol figure (some m) = figure m
  of_symbol figure none = none

  -- The figure that stands in a column of the table: the time, the price, the volume ratio and the
  -- score are the signal's own, turnover and change are its symbol's, and the last one is the
  -- from_high of its price from the high of its symbol.
  abbrev pub figure_in : SignalSortKey → Object (InstrumentMetrics N) → Signal N → Option (N.Number)
  figure_in timestamp cache s = some (time_of s.timestamp)
  figure_in price cache s = s.price
  figure_in volume_ratio cache s = s.volume_ratio
  figure_in score cache s = s.score
  figure_in adv cache s = of_symbol (λ m. m.adv_20_cr) (cache s.symbol)
  figure_in chg_pct cache s = of_symbol (λ m. m.day_chg_pct) (cache s.symbol)
  figure_in f52h_pct cache s = from_high s.price (of_symbol (λ m. m.week52_high) (cache s.symbol))

  -- The symbol has the query in it, in capitals and without the blanks around it.
  abbrev pub is_found : Locale → String → Signal N → Bool
  is_found locale query s = let q = locale.to_upper (trim query) in (q == "") || includes s.symbol q

  metric-of_symbol :
      (figure : InstrumentMetrics N → Option (N.Number)) (m : Option (InstrumentMetrics N))
      → metric N time_of figure m ≡ of_symbol figure m
  metric-of_symbol figure none = refl
  metric-of_symbol figure (some m) = refl

  below_high-from_high :
      (high p : Option (N.Number)) → below_high N time_of high p ≡ from_high p high
  below_high-from_high none none = refl
  below_high-from_high none (some p) = refl
  below_high-from_high (some high) none = refl
  below_high-from_high (some high) (some p) = refl

  value-figure :
      (key : SignalSortKey) (cache : Object (InstrumentMetrics N)) (s : Signal N)
      → sort_value N time_of key cache s ≡ figure_in key cache s
  unfolding sort_value
  value-figure timestamp cache s = refl
  value-figure price cache s = refl
  value-figure volume_ratio cache s = refl
  value-figure score cache s = refl
  value-figure adv cache s = metric-of_symbol (λ m. m.adv_20_cr) (cache s.symbol)
  value-figure chg_pct cache s = metric-of_symbol (λ m. m.day_chg_pct) (cache s.symbol)
  value-figure f52h_pct cache s =
      rw (← metric-of_symbol (λ m. m.week52_high) (cache s.symbol))
        (below_high-from_high (metric N time_of (λ m. m.week52_high) (cache s.symbol)) s.price)

  matching_found :
      (locale : Locale) (query : String) (filtered : List (Signal N))
      → matching N time_of locale query filtered ≡ filter (is_found locale query) filtered
  unfolding matching
  matching_found locale query filtered =
      let q = locale.to_upper (trim query) in
      elim (Bool-cases (q == "")) [
        | inl all ↦ rw all (sym (filter_all _ filtered (λ s. rw all refl)))
        | inr part ↦ rw part (filter_by _ _ filtered (λ s. rw part refl))
      ]

  -- The figure of a row is finite, where it has one.
  abbrev pub FiniteFigure : SignalSortKey → Object (InstrumentMetrics N) → Signal N → Type 0
  FiniteFigure key cache s = Each (IsFinite N) (figure_in key cache s)

  -- Sorted by a column whose figures are finite where they are there, the table shows the filtered
  -- rows whose symbol has the query in it, each once, the lower figures first in the ascending
  -- direction and the higher ones first in the other, those without a figure last in both, and rows
  -- of equal figures in the order of the feed.
  pub sorted_filtered-IsTable :
      (locale : Locale) (st : SortState) (key : SignalSortKey)
      (cache : Object (InstrumentMetrics N)) (filtered : List (Signal N))
      → st.sort_key ≡ some key
      → All (FiniteFigure key cache) (filter (is_found locale st.query) filtered)
      → IsSortOf
          (IsFinite N)
          N.lt
          st.sort_asc
          (figure_in key cache)
          (filter (is_found locale st.query) filtered)
          (sorted_filtered N time_of locale st cache filtered)
  unfolding sorted_filtered
  sorted_filtered-IsTable locale st key cache filtered e fin =
      let same : sort_value N time_of key cache ≡ figure_in key cache =
        λ i s. value-figure key cache s i in
      let base = filter (is_found locale st.query) filtered in
      rw (e, matching_found locale st.query filtered)
        (subst
          (λ (v : Signal N → Option (N.Number)).
            IsSortOf (IsFinite N) N.lt st.sort_asc (figure_in key cache) base
              (sort (λ a b. before_opt (sub_lt N) st.sort_asc (v a) (v b)) base))
          (sym same)
          (sort-IsSortOf N.lt (sub_lt N) st.sort_asc (figure_in key cache) (sub_lt-lt N)
            (sub_lt-IsWeakOrder N) base fin))
