-- ===== src/Stocks/Sorting.antt =====
-- `sortStockRows` of CockpitUI/src/domain/stocklist.ts. A column is named by a string and read from
-- a row as from an untyped object; each column that rows have holds one type of value.
use trader_cockpit_app.Prelude.{
  String, Bool, true, false, not, ◌&&◌, Option, none, some, List, [], ◌∷◌, ◌≡◌, refl, All, arith,
  get_or,
}
use trader_cockpit_app.Js.Numbers.{Numbers}
use trader_cockpit_app.Js.Collections.{entry}
use trader_cockpit_app.Js.Text.{Locale}
use trader_cockpit_app.Js.Sort.{sort, sort-never, IsWeakOrder}
use trader_cockpit_app.Js.Order.{
  before_opt, Each, IsSortOf, sort-IsSortOf, IsNumber, lt-IsWeakOrder,
}
use trader_cockpit_app.Screener.Rows.{ScreenerRow}

pub record StockRow (N : Numbers) : Type 0 where
  pub screener : ScreenerRow N
  pub open screener use *
  pub company_name : Option String

-- `false < true`.
abbrev pub lt_flag : Bool → Bool → Bool
lt_flag a b = not a && b

module _ (N : Numbers) where
  pub data Column : Type 0 where
    texts : (StockRow N → Option String) → Column
    numbers : (StockRow N → Option (N.Number)) → Column
    flags : (StockRow N → Option Bool) → Column
    missing : Column

  abbrev columns : List (String × Column)
  columns =
      ("symbol", texts (λ r. some r.symbol))
      ∷ ("is_fno", flags (λ r. r.is_fno))
      ∷ ("adv_20_cr", numbers (λ r. r.adv_20_cr))
      ∷ ("atr_14", numbers (λ r. r.atr_14))
      ∷ ("current_price", numbers (λ r. r.current_price))
      ∷ ("daily_vwap", numbers (λ r. r.daily_vwap))
      ∷ ("ema_50", numbers (λ r. r.ema_50))
      ∷ ("ema_200", numbers (λ r. r.ema_200))
      ∷ ("week_return_pct", numbers (λ r. r.week_return_pct))
      ∷ ("week_gain_pct", numbers (λ r. r.week_gain_pct))
      ∷ ("week_decline_pct", numbers (λ r. r.week_decline_pct))
      ∷ ("prev_day_close", numbers (λ r. r.prev_day_close))
      ∷ ("prev_day_high", numbers (λ r. r.prev_day_high))
      ∷ ("prev_day_low", numbers (λ r. r.prev_day_low))
      ∷ ("week52_high", numbers (λ r. r.week52_high))
      ∷ ("week52_low", numbers (λ r. r.week52_low))
      ∷ ("prev_week_high", numbers (λ r. r.prev_week_high))
      ∷ ("prev_week_low", numbers (λ r. r.prev_week_low))
      ∷ ("prev_month_high", numbers (λ r. r.prev_month_high))
      ∷ ("prev_month_low", numbers (λ r. r.prev_month_low))
      ∷ ("stage", texts (λ r. r.stage))
      ∷ ("rs_vs_nifty", numbers (λ r. r.rs_vs_nifty))
      ∷ ("weekly_bias", texts (λ r. r.weekly_bias))
      ∷ ("vcp_detected", flags (λ r. r.vcp_detected))
      ∷ ("vcp_contractions", numbers (λ r. r.vcp_contractions))
      ∷ ("rect_breakout", flags (λ r. r.rect_breakout))
      ∷ ("rect_range_pct", numbers (λ r. r.rect_range_pct))
      ∷ ("consolidation_days", numbers (λ r. r.consolidation_days))
      ∷ ("display_price", numbers (λ r. r.display_price))
      ∷ ("f52h", numbers (λ r. r.f52h))
      ∷ ("f52l", numbers (λ r. r.f52l))
      ∷ ("dvwap_delta_pct", numbers (λ r. r.dvwap_delta_pct))
      ∷ ("ema50_delta_pct", numbers (λ r. r.ema50_delta_pct))
      ∷ ("ema200_delta_pct", numbers (λ r. r.ema200_delta_pct))
      ∷ ("company_name", texts (λ r. r.company_name))
      ∷ []

  -- `row[col]`; a column that no row has reads as undefined.
  unfoldable pub column : String → Column
  column col = get_or (entry columns col) missing

  -- The sign of the comparator's answer: is it negative at (a, b)?
  unfoldable pub before : Locale → Column → Bool → StockRow N → StockRow N → Bool
  before locale (texts value) asc a b = before_opt locale.before asc (value a) (value b)
  before locale (numbers value) asc a b = before_opt N.lt asc (value a) (value b)
  before locale (flags value) asc a b = before_opt lt_flag asc (value a) (value b)
  before locale missing asc a b = false

  unfoldable pub sort_stock_rows : Locale → List (StockRow N) → String → Bool → List (StockRow N)
  sort_stock_rows locale rows col asc = sort (before locale (column col) asc) rows

  -- A number in the column is not NaN.
  abbrev pub Comparable : Column → StockRow N → Type 0
  Comparable (texts value) r = Unit
  Comparable (numbers value) r = Each (IsNumber N) (value r)
  Comparable (flags value) r = Unit
  Comparable missing r = Unit

  -- What the sort by a column makes of the rows. A column that no row has orders nothing.
  abbrev pub SortedBy : Locale → Column → Bool → List (StockRow N) → List (StockRow N) → Type 0
  SortedBy locale (texts value) asc = IsSortOf (λ s. Unit {0}) locale.before asc value
  SortedBy locale (numbers value) asc = IsSortOf (IsNumber N) N.lt asc value
  SortedBy locale (flags value) asc = IsSortOf (λ b. Unit {0}) lt_flag asc value
  SortedBy locale missing asc = λ rows sorted. sorted ≡ rows

  text-IsWeakOrder : (locale : Locale) → IsWeakOrder (λ s. Unit {0}) locale.before
  text-IsWeakOrder locale = record {
    asym = λ s t p q e. locale.before_asym s t e;
    trans = λ s t u p q r e f. locale.before_trans s t u e f;
  }

  lt_flag_trans : (a b c : Bool) → lt_flag b a ≡ false → lt_flag c b ≡ false → lt_flag c a ≡ false
  lt_flag_trans a b c e f = ground arith

  lt_flag-asym : (a b : Bool) → lt_flag a b ≡ true → lt_flag b a ≡ false
  lt_flag-asym a b e = ground arith

  flag-IsWeakOrder : IsWeakOrder (λ b. Unit {0}) lt_flag
  flag-IsWeakOrder = record {
    asym = λ a b p q e. lt_flag-asym a b e;
    trans = λ a b c p q r e f. lt_flag_trans a b c e f;
  }

  Each-unit {ℓ} : {A : Type ℓ} (o : Option A) → Each (λ a. Unit {0}) o
  Each-unit none = tt
  Each-unit (some a) = tt

  all-Each {ℓ} :
      {A : Type ℓ} (value : StockRow N → Option A) (rows : List (StockRow N))
      → All (λ r. Each (λ a. Unit {0}) (value r)) rows
  all-Each value [] = tt
  all-Each value (r ∷ rs) = (Each-unit (value r), all-Each value rs)

  sort-SortedBy :
      (locale : Locale) (c : Column) (asc : Bool) (rows : List (StockRow N))
      → All (Comparable c) rows
      → SortedBy locale c asc rows (sort (before locale c asc) rows)
  unfolding before
  sort-SortedBy locale (texts value) asc rows h =
      sort-IsSortOf locale.before locale.before asc value (λ a b p q. refl)
        (text-IsWeakOrder locale) rows (all-Each value rows)
  sort-SortedBy locale (numbers value) asc rows h =
      sort-IsSortOf N.lt N.lt asc value (λ a b p q. refl) (lt-IsWeakOrder N) rows h
  sort-SortedBy locale (flags value) asc rows h =
      sort-IsSortOf lt_flag lt_flag asc value (λ a b p q. refl) flag-IsWeakOrder rows
        (all-Each value rows)
  sort-SortedBy locale missing asc rows h = sort-never rows

  -- Where no number in the column is NaN, sorting by a column that rows have keeps the rows, each
  -- once, puts the lower values first in the ascending direction and the higher ones first in the
  -- other, those without a value last in both, and leaves rows of level values in their order; texts
  -- are in the order of the locale, and false is below true. Sorting by a column that no row has, as
  -- that of the change in percent, leaves the rows as they are.
  pub sort_stock_rows_lem :
      (locale : Locale) (rows : List (StockRow N)) (col : String) (asc : Bool)
      → All (Comparable (column col)) rows
      → SortedBy locale (column col) asc rows (sort_stock_rows locale rows col asc)
  unfolding sort_stock_rows
  sort_stock_rows_lem locale rows col asc h = sort-SortedBy locale (column col) asc rows h
