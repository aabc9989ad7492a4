-- ===== src/Screener/Rows.antt =====
-- CockpitUI/src/domain/screener.ts: the rows, their derived fields and the Camarilla levels. A
-- missing field is `none`.
use trader_cockpit_app.Prelude.{String, Bool, Option, none, some, List, map, if◌then◌else◌}
use trader_cockpit_app.Js.Numbers.{Numbers, zero_n}

pub record ScreenerRow (N : Numbers) : Type 0 where
  pub symbol : String
  pub is_fno : Option Bool
  pub adv_20_cr : Option (N.Number)
  pub atr_14 : Option (N.Number)
  pub current_price : Option (N.Number)
  pub daily_vwap : Option (N.Number)
  pub ema_50 : Option (N.Number)
  pub ema_200 : Option (N.Number)
  pub week_return_pct : Option (N.Number)
  pub week_gain_pct : Option (N.Number)
  pub week_decline_pct : Option (N.Number)
  pub prev_day_close : Option (N.Number)
  pub prev_day_high : Option (N.Number)
  pub prev_day_low : Option (N.Number)
  pub week52_high : Option (N.Number)
  pub week52_low : Option (N.Number)
  pub prev_week_high : Option (N.Number)
  pub prev_week_low : Option (N.Number)
  pub prev_month_high : Option (N.Number)
  pub prev_month_low : Option (N.Number)
  pub stage : Option String
  pub rs_vs_nifty : Option (N.Number)
  pub weekly_bias : Option String
  pub vcp_detected : Option Bool
  pub vcp_contractions : Option (N.Number)
  pub rect_breakout : Option Bool
  pub rect_range_pct : Option (N.Number)
  pub consolidation_days : Option (N.Number)
  pub display_price : Option (N.Number)
  pub f52h : Option (N.Number)
  pub f52l : Option (N.Number)
  pub dvwap_delta_pct : Option (N.Number)
  pub ema50_delta_pct : Option (N.Number)
  pub ema200_delta_pct : Option (N.Number)

module _ (N : Numbers) where
  open N use {Number, lit, add, sub, mul, div, eq}

  pub record CamLevels : Type 0 where
    pub h4 : Number
    pub h3 : Number
    pub l3 : Number
    pub l4 : Number

  unfoldable pub cam_levels : Number → Number → Number → CamLevels
  cam_levels pdh pdl pdc =
      let rng = sub pdh pdl in
      let wide = div (mul rng (lit 11 10)) (lit 2 1) in
      let narrow = div (mul rng (lit 11 10)) (lit 4 1) in
      record { h4 = add pdc wide; h3 = add pdc narrow; l3 = sub pdc narrow; l4 = sub pdc wide }

  unfoldable pub row_price : ScreenerRow N → Option Number
  row_price row = elim row.current_price [ none ↦ row.prev_day_close | some p ↦ some p ]

  unfoldable pub pct_from_reference : Option Number → Option Number → Option Number
  pct_from_reference none reference = none
  pct_from_reference (some price) none = none
  pct_from_reference (some price) (some reference) =
      if eq reference (zero_n N)
      then none
      else some (mul (div (sub price reference) reference) (lit 100 1))

  unfoldable pub decorate : ScreenerRow N → ScreenerRow N
  unfolding row_price pct_from_reference
  decorate r = record r {
    display_price = row_price r;
    f52h = pct_from_reference (row_price r) r.week52_high;
    f52l = pct_from_reference (row_price r) r.week52_low;
    dvwap_delta_pct = pct_from_reference (row_price r) r.daily_vwap;
    ema50_delta_pct = pct_from_reference (row_price r) r.ema_50;
    ema200_delta_pct = pct_from_reference (row_price r) r.ema_200;
  }

  unfoldable pub decorate_rows : List (ScreenerRow N) → List (ScreenerRow N)
  unfolding decorate
  decorate_rows raw = map decorate raw
