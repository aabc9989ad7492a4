-- ===== src/Charts/Frames.antt =====
-- The timeframes and the texts of CockpitUI/src/lib/chartUtils.ts. The numbers in a path are written
-- as the code's literals; `encodeURIComponent` is a parameter.
use Prim.Native.String.{◌++◌ as ◌+++◌}
use trader_cockpit_app.Prelude.{ℕ, String, Bool, true, false, if◌then◌else◌}
use trader_cockpit_app.Js.Numbers.{Numbers}
use trader_cockpit_app.Js.Format.{Format}

pub data Timeframe : Type 0 where
  m1 m3 m5 m15 h1 d1 w1 mo1 : Timeframe

-- `INTRADAY_TFS.includes(tf)`; the others are `DAILY_TFS`.
abbrev pub is_intraday : Timeframe → Bool
is_intraday d1 = false
is_intraday w1 = false
is_intraday mo1 = false
is_intraday _ = true

pub record IntradayParams : Type 0 where
  pub tf_mins : ℕ
  pub bars : ℕ

abbrev pub tf_to_intraday_params : Timeframe → IntradayParams
tf_to_intraday_params m3 = record { tf_mins = 3; bars = 11250 }
tf_to_intraday_params m5 = record { tf_mins = 5; bars = 6750 }
tf_to_intraday_params m15 = record { tf_mins = 15; bars = 2250 }
tf_to_intraday_params h1 = record { tf_mins = 60; bars = 630 }
tf_to_intraday_params _ = record { tf_mins = 1; bars = 33750 }

abbrev pub daily_tf_days : ℕ
daily_tf_days = 1825

-- The fast and the slow average of a timeframe.
pub record EmaPeriods : Type 0 where
  pub fast : ℕ
  pub slow : ℕ
  pub fast_label : String
  pub slow_label : String

abbrev pub periods : ℕ → ℕ → String → String → EmaPeriods
periods fast slow fast_label slow_label = record {
  fast = fast;
  slow = slow;
  fast_label = fast_label;
  slow_label = slow_label;
}

abbrev pub tf_ema_periods : Timeframe → EmaPeriods
tf_ema_periods m1 = periods 9 21 "EMA9" "EMA21"
tf_ema_periods m3 = periods 9 21 "EMA9" "EMA21"
tf_ema_periods m5 = periods 9 21 "EMA9" "EMA21"
tf_ema_periods m15 = periods 20 50 "EMA20" "EMA50"
tf_ema_periods h1 = periods 20 50 "EMA20" "EMA50"
tf_ema_periods d1 = periods 50 200 "EMA50" "EMA200"
tf_ema_periods w1 = periods 9 21 "EMA9" "EMA21"
tf_ema_periods mo1 = periods 6 12 "EMA6" "EMA12"

module _ {N : Numbers} (F : Format N) where
  open N use {Number, lit, div, le}

  unfoldable pub build_chart_url : (String → String) → String → Timeframe → String
  build_chart_url enc symbol tf =
      let path = "/api/v1/chart/" +++ enc symbol in
      let p = tf_to_intraday_params tf in
      if is_intraday tf
      then path
        +++ ("/intraday?tf="
            +++ (F.shown (lit p.tf_mins 1) +++ ("&bars=" +++ F.shown (lit p.bars 1))))
      else path +++ ("/daily?days=" +++ F.shown (lit daily_tf_days 1))

  unfoldable pub fmt_vol : Number → String
  fmt_vol v =
      if le (lit 10000000 1) v
      then F.fixed 1 (div v (lit 10000000 1)) +++ "Cr"
      else if le (lit 100000 1) v
      then F.fixed 1 (div v (lit 100000 1)) +++ "L"
      else if le (lit 1000 1) v
      then F.fixed 1 (div v (lit 1000 1)) +++ "K"
      else F.shown v
