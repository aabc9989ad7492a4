-- ===== src/Signals/Table.antt =====
-- The signal table of CockpitUI/src/components/signals/useSignalSort.ts. The time of a text,
-- `new Date(t).getTime()`, is a parameter.
pub mod Sorting
mod Tests
use trader_cockpit_app.Prelude.{
  String, ◌==◌, Bool, true, false, not, Option, none, some, List, filter, if◌then◌else◌,
}
use trader_cockpit_app.Js.Numbers.{Numbers}
use trader_cockpit_app.Js.Collections.{Object}
use trader_cockpit_app.Js.Order.{before_opt, sub_lt}
use trader_cockpit_app.Js.Sort.{sort}
use trader_cockpit_app.Js.Text.{Locale, includes, trim}
use trader_cockpit_app.Signals.Types.{Signal, SignalCategory, SignalType}
use trader_cockpit_app.Signals.Market.{InstrumentMetrics}
use trader_cockpit_app.Signals.Filter.{filter_signals}

pub data SignalSortKey : Type 0 where
  timestamp price volume_ratio score adv chg_pct f52h_pct : SignalSortKey

-- `sortKey === key`.
abbrev pub same_sort_key : SignalSortKey → SignalSortKey → Bool
same_sort_key timestamp timestamp = true
same_sort_key price price = true
same_sort_key volume_ratio volume_ratio = true
same_sort_key score score = true
same_sort_key adv adv = true
same_sort_key chg_pct chg_pct = true
same_sort_key f52h_pct f52h_pct = true
same_sort_key _ _ = false

abbrev pub is_sort_key : SignalSortKey → Option SignalSortKey → Bool
is_sort_key key none = false
is_sort_key key (some k) = same_sort_key k key

pub record SortState : Type 0 where
  pub query : String
  pub sort_key : Option SignalSortKey
  pub sort_asc : Bool

unfoldable pub handle_sort : SignalSortKey → SortState → SortState
handle_sort key s = record s {
  sort_asc = if is_sort_key key s.sort_key then not s.sort_asc else same_sort_key key timestamp;
  sort_key = some key;
}

unfoldable pub clear_sort : SortState → SortState
clear_sort s = record s { sort_key = none; sort_asc = false }

module _ (N : Numbers) (time_of : String → N.Number) where
  open N use {Number, lit, sub, mul, div}

  -- A field of the metrics, where the cache has them.
  abbrev pub metric :
      (InstrumentMetrics N → Option Number) → Option (InstrumentMetrics N) → Option Number
  metric field none = none
  metric field (some m) = field m

  -- `(price / high - 1) * 100`, where both are there.
  abbrev pub below_high : Option Number → Option Number → Option Number
  below_high (some high) (some p) = some (mul (sub (div p high) (lit 1 1)) (lit 100 1))
  below_high (some high) none = none
  below_high none p = none

  -- What a row is sorted by.
  unfoldable pub sort_value :
      SignalSortKey → Object (InstrumentMetrics N) → Signal N → Option Number
  sort_value timestamp cache s = some (time_of s.timestamp)
  sort_value price cache s = s.price
  sort_value volume_ratio cache s = s.volume_ratio
  sort_value score cache s = s.score
  sort_value adv cache s = metric (λ m. m.adv_20_cr) (cache s.symbol)
  sort_value chg_pct cache s = metric (λ m. m.day_chg_pct) (cache s.symbol)
  sort_value f52h_pct cache s = below_high (metric (λ m. m.week52_high) (cache s.symbol)) s.price

  -- Is the comparator's answer negative?
  abbrev pub before_row :
      SignalSortKey → Bool → Object (InstrumentMetrics N) → Signal N → Signal N → Bool
  before_row key asc cache a b =
      before_opt (sub_lt N) asc (sort_value key cache a) (sort_value key cache b)

  unfoldable pub matching : Locale → String → List (Signal N) → List (Signal N)
  matching locale query filtered =
      let q = locale.to_upper (trim query) in
      if q == "" then filtered else filter (λ s. includes s.symbol q) filtered

  abbrev pub sorted_by :
      Option SignalSortKey → Bool → Object (InstrumentMetrics N) → List (Signal N) → List (Signal N)
  sorted_by none asc cache base = base
  sorted_by (some key) asc cache base = sort (before_row key asc cache) base

  -- `sortedFiltered`, from what the toolbar filters.
  unfoldable pub sorted_filtered :
      Locale → SortState → Object (InstrumentMetrics N) → List (Signal N) → List (Signal N)
  sorted_filtered locale s cache filtered =
      sorted_by s.sort_key s.sort_asc cache (matching locale s.query filtered)

  -- The rows of the table.
  unfoldable pub table_rows :
      Locale
      → SortState
      → List (Signal N)
      → SignalCategory
      → Number
      → Object (InstrumentMetrics N)
      → Option SignalType
      → Bool
      → List (Signal N)
  unfolding sorted_filtered
  table_rows locale s signals category min_adv cache sub_type fno_only =
      sorted_filtered locale s cache
        (filter_signals N signals category min_adv cache sub_type fno_only)
