-- ===== src/Signals/Market.antt =====
-- CockpitUI/src/domain/market.ts and CockpitUI/src/domain/instrument_metrics.ts: the market status
-- and the reference data of an instrument.
use trader_cockpit_app.Prelude.{String, Bool, Option}
use trader_cockpit_app.Js.Numbers.{Numbers}

pub data MarketPhase : Type 0 where
  drive_window execution close_momentum session_end dead_zone no_phase : MarketPhase

pub data IndexName : Type 0 where
  nifty banknifty sensex : IndexName

pub data Bias : Type 0 where
  bullish bearish neutral : Bias

pub record MarketStatus : Type 0 where
  pub phase : MarketPhase
  pub bias : IndexName → Bias

-- PHASE_STYLE: background and text colour.
pub record PhaseStyle : Type 0 where
  pub bg : String
  pub color : String

unfoldable pub phase_style : MarketPhase → PhaseStyle
phase_style drive_window = record { bg = "#0dbd7d14"; color = "#0dbd7d" }
phase_style execution = record { bg = "#0dbd7d10"; color = "#0a9e68" }
phase_style close_momentum = record { bg = "#2d7ee814"; color = "#2d7ee8" }
phase_style session_end = record { bg = "#f23d5514"; color = "#f23d55" }
phase_style dead_zone = record { bg = "#e8933a14"; color = "#e8933a" }
phase_style no_phase = record { bg = "#2a3f5814"; color = "#2a3f58" }

-- A `null` stage is a missing one.
pub record InstrumentMetrics (N : Numbers) : Type 0 where
  pub symbol : String
  pub is_fno : Option Bool
  pub day_high : Option (N.Number)
  pub day_low : Option (N.Number)
  pub day_open : Option (N.Number)
  pub day_close : Option (N.Number)
  pub current_price : Option (N.Number)
  pub day_chg_pct : Option (N.Number)
  pub week52_high : Option (N.Number)
  pub week52_low : Option (N.Number)
  pub prev_day_high : Option (N.Number)
  pub prev_day_low : Option (N.Number)
  pub prev_day_close : Option (N.Number)
  pub prev_week_high : Option (N.Number)
  pub prev_week_low : Option (N.Number)
  pub prev_month_high : Option (N.Number)
  pub prev_month_low : Option (N.Number)
  pub atr_14 : Option (N.Number)
  pub adv_20_cr : Option (N.Number)
  pub stage : Option String
