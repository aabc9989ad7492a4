-- ===== src/Charts/Tests.antt =====
-- A run of the chart's bars, and the theorems at inputs that meet their conditions.
use Prim.Native.Char.{nul}
use trader_cockpit_app.Prelude.{
  ℕ, zero, suc, ◌==◌, ◌-◌, ◌≤◌, String, none, List, [], ◌∷◌, ◌≡◌, refl, arith, drop, length, map,
  ltb, if◌then◌else◌,
}
use trader_cockpit_app.Js.Numbers.{Numbers}
use trader_cockpit_app.Js.PlainLocale.{plain_locale}
use trader_cockpit_app.Js.Sort.{sort}
use trader_cockpit_app.Js.Thousandths.{thousandths, ℤ, pos}
use trader_cockpit_app.Charts.{
  Calendar, ChartBar, push_bars, sorted_groups, resample_monthly, candles, candle, compute_ema,
}
use trader_cockpit_app.Js.PlainFormat.{plain_format}
use trader_cockpit_app.Charts.Frames.{mo1}
use trader_cockpit_app.Charts.Screen.{
  ChartEvent, frame_chosen, answered, toggled, column, got, vol, toggle, new_chart, chart_answer,
  bars_of, chart_steps, open_chart,
}
use trader_cockpit_app.Charts.Screen.Drawing.{
  CameFor, ShowsWhenLoaded, chart_steps-open_chart-ShowsWhenLoaded,
}
use trader_cockpit_app.Charts.Grouping.{times, bar_times, times-compute_ema}

abbrev N : Numbers
N = thousandths

abbrev bar : String → ℤ → ChartBar N
bar time close = record {
  time = time;
  open_price = close;
  high = close;
  low = close;
  close = close;
  volume = pos 1000;
}

-- A text as long as a number says.
tally : ℕ → String
tally zero = ""
tally (suc n) = String.◌∷◌ nul (tally n)

strokes : String → ℕ
strokes String.[] = 0
strokes (String.◌∷◌ c s) = suc (strokes s)

-- The days of these tests, numbered from their Monday.
abbrev plain_calendar : Calendar
plain_calendar = record {
  day_of = λ t. if t == "2024-01-30" then 1 else if t == "2024-01-31" then 2 else 3;
  date_text = tally;
}

abbrev days : List (ChartBar N)
days =
    bar "2024-01-30" (pos 10000) ∷ bar "2024-01-31" (pos 12000) ∷ bar "2024-02-01" (pos 11000) ∷ []

monthly_run : bar_times N (resample_monthly N plain_locale days) ≡ "2024-01-01" ∷ "2024-02-01" ∷ []
unfolding resample_monthly sorted_groups push_bars candles candle sort
monthly_run = refl

two_days : 1 ≤ 2
two_days = omega arith

times-compute_ema_example :
    times N (compute_ema N days 2)
    ≡ (if ltb (length days) 2 then [] else bar_times N (drop (2 - 1) days))
times-compute_ema_example = times-compute_ema N days 2 two_days

-- The answer to the daily request comes after the change to months.
abbrev late_answer : List (ChartEvent N)
late_answer =
    frame_chosen mo1 ∷ answered 0 (got days) ∷ answered 1 (got days) ∷ toggled vol none ∷ []

chart_steps-open_chart-ShowsWhenLoaded_example :
    ShowsWhenLoaded plain_format plain_locale plain_calendar
      (λ run received. CameFor plain_format plain_locale plain_calendar run received late_answer)
      (chart_steps plain_format plain_locale plain_calendar late_answer (open_chart N))
chart_steps-open_chart-ShowsWhenLoaded_example =
    chart_steps-open_chart-ShowsWhenLoaded plain_format plain_locale plain_calendar late_answer

-- Before the monthly answer a double click on the volumes draws those of the daily bars.
volumes_of_other_frame :
    (chart_steps plain_format plain_locale plain_calendar
      (answered 0 (got days) ∷ frame_chosen mo1 ∷ toggled vol none ∷ toggled vol none ∷ [])
      (open_chart N)).drawn.vol
    ≡ map (column N) days
unfolding open_chart chart_answer new_chart toggle bars_of
volumes_of_other_frame = refl
