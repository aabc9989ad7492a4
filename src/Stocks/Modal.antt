-- ===== src/Stocks/Modal.antt =====
-- The state of CockpitUI/src/components/dashboard/SymbolModal.tsx and the row that it shows.
use trader_cockpit_app.Prelude.{
  ℕ, suc, String, Bool, false, not, Option, none, some, nat_eq, if◌then◌else◌,
}
use trader_cockpit_app.Js.Numbers.{Numbers, zero_n}
use trader_cockpit_app.Prices.{or_else}
use trader_cockpit_app.Signals.Market.{InstrumentMetrics}
use trader_cockpit_app.Screener.Rows.{ScreenerRow}
use trader_cockpit_app.Stocks.Sorting.{StockRow}

pub data SymbolModalTab : Type 0 where
  details chart oc : SymbolModalTab

module _ (N : Numbers) where
  open N use {Number, lit, sub, mul, div, eq}

  unfoldable pub modal_pct : Option Number → Option Number → Option Number
  modal_pct none reference = none
  modal_pct (some price) none = none
  modal_pct (some price) (some reference) =
      if eq reference (zero_n N)
      then none
      else some (mul (div (sub price reference) reference) (lit 100 1))

  abbrev pub merged_screener : ScreenerRow N → InstrumentMetrics N → ScreenerRow N
  merged_screener base metric =
      let display_price =
        or_else metric.current_price
          (or_else metric.day_close (or_else base.display_price base.prev_day_close)) in
      record base {
        is_fno = or_else base.is_fno metric.is_fno;
        current_price = or_else metric.current_price base.current_price;
        display_price = display_price;
        prev_day_high = or_else metric.prev_day_high base.prev_day_high;
        prev_day_low = or_else metric.prev_day_low base.prev_day_low;
        prev_day_close = or_else metric.prev_day_close base.prev_day_close;
        week52_high = or_else metric.week52_high base.week52_high;
        week52_low = or_else metric.week52_low base.week52_low;
        f52h = or_else base.f52h (modal_pct display_price metric.week52_high);
        f52l = or_else base.f52l (modal_pct display_price metric.week52_low);
        atr_14 = or_else metric.atr_14 base.atr_14;
        adv_20_cr = or_else metric.adv_20_cr base.adv_20_cr;
        stage = or_else base.stage metric.stage;
      }

  unfoldable pub merge_metric_row : StockRow N → Option (InstrumentMetrics N) → StockRow N
  merge_metric_row base none = base
  merge_metric_row base (some metric) = record base {
    screener = merged_screener base.screener metric;
  }

  -- `{ symbol } as StockRow`.
  abbrev pub only_symbol : String → StockRow N
  only_symbol symbol = record {
    screener = record {
      symbol = symbol;
      is_fno = none;
      adv_20_cr = none;
      atr_14 = none;
      current_price = none;
      daily_vwap = none;
      ema_50 = none;
      ema_200 = none;
      week_return_pct = none;
      week_gain_pct = none;
      week_decline_pct = none;
      prev_day_close = none;
      prev_day_high = none;
      prev_day_low = none;
      week52_high = none;
      week52_low = none;
      prev_week_high = none;
      prev_week_low = none;
      prev_month_high = none;
      prev_month_low = none;
      stage = none;
      rs_vs_nifty = none;
      weekly_bias = none;
      vcp_detected = none;
      vcp_contractions = none;
      rect_breakout = none;
      rect_range_pct = none;
      consolidation_days = none;
      display_price = none;
      f52h = none;
      f52l = none;
      dvwap_delta_pct = none;
      ema50_delta_pct = none;
      ema200_delta_pct = none;
    };
    company_name = none;
  }

  -- `effect_run` numbers the runs of the effect; an answer is heeded while its run is the last.
  pub record SymbolModal : Type 0 where
    pub symbol : String
    pub row : Option (StockRow N)
    pub tab : SymbolModalTab
    pub expanded : Bool
    pub fetched_row : Option (StockRow N)
    pub effect_run : ℕ

  abbrev pub run_effect : Option (StockRow N) → SymbolModal → SymbolModal
  run_effect none s = s
  run_effect (some row) s = record s { fetched_row = none }

  unfoldable pub open_symbol : String → Option (StockRow N) → Option SymbolModalTab → SymbolModal
  open_symbol symbol row initial = record {
    symbol = symbol;
    row = row;
    tab = elim initial [ none ↦ chart | some t ↦ t ];
    expanded = false;
    fetched_row = none;
    effect_run = 0;
  }

  -- New properties: the cleanup, and the effect again.
  unfoldable pub show_symbol : String → Option (StockRow N) → SymbolModal → SymbolModal
  show_symbol symbol row s =
      run_effect row (record s { symbol = symbol; row = row; effect_run = suc s.effect_run })

  -- The answer to a run's request: the metrics of the symbol, where there are any, or `none` where
  -- the request failed.
  unfoldable pub metrics_answer :
      ℕ → Option (Option (InstrumentMetrics N)) → SymbolModal → SymbolModal
  metrics_answer run none s =
      if nat_eq run s.effect_run then record s { fetched_row = some (only_symbol s.symbol) } else s
  metrics_answer run (some m) s =
      if nat_eq run s.effect_run
      then record s { fetched_row = some (merge_metric_row (only_symbol s.symbol) m) }
      else s

  -- `row ?? fetchedRow`.
  abbrev pub detail_row : SymbolModal → Option (StockRow N)
  detail_row s = or_else s.row s.fetched_row

  abbrev pub set_tab : SymbolModalTab → SymbolModal → SymbolModal
  set_tab t s = record s { tab = t }

  abbrev pub toggle_expanded : SymbolModal → SymbolModal
  toggle_expanded s = record s { expanded = not s.expanded }
