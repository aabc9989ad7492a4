-- ===== src/Charts/Screen.antt =====
-- The state of CockpitUI/src/components/dashboard/useDailyChart.ts: what is kept of the bars, what
-- is drawn on the present chart, and the handlers. Times are texts. Each run of the effect that
-- makes a chart has a number, and an answer carries the number of the run that asked for it.
pub mod Drawing
use trader_cockpit_app.Prelude.{
  ℕ, zero, suc, ◌+◌, ◌-◌, String, ◌==◌, Bool, true, false, not, ◌&&◌, Option, none, some, List, [],
  ◌∷◌, map, length, take, drop, min, nat_eq, if◌then◌else◌,
}
use trader_cockpit_app.Prelude.Int.{ℤ, pos, negsuc, at_least_zero}
use trader_cockpit_app.Js.Numbers.{Numbers}
use trader_cockpit_app.Js.Format.{Format}
use trader_cockpit_app.Js.Text.{Locale}
use trader_cockpit_app.Charts.{
  Calendar, ChartBar, EmaPoint, compute_ema, resample_weekly, resample_monthly,
}
use trader_cockpit_app.Charts.Frames.{Timeframe, d1, w1, mo1, is_intraday, tf_ema_periods}
use trader_cockpit_app.Charts.Profile.{ProfileRow, build_volume_profile}

pub record IndicatorVis : Type 0 where
  pub ema50 : Bool
  pub ema200 : Bool
  pub vol : Bool
  pub vp : Bool

pub data Indicator : Type 0 where
  ema50 ema200 vol vp : Indicator

-- `setVis(prev => ({ ...prev, [key]: !prev[key] }))`.
abbrev pub flip : Indicator → IndicatorVis → IndicatorVis
flip ema50 v = record v { ema50 = not v.ema50 }
flip ema200 v = record v { ema200 = not v.ema200 }
flip vol v = record v { vol = not v.vol }
flip vp v = record v { vp = not v.vp }

pub data ChartReply {ℓ} (A : Type ℓ) : Type ℓ where
  got : A → ChartReply A
  failed : String → ChartReply A

-- `Math.min(length - 1, to) + 1`.
abbrev pub one_more_within : ℕ → ℤ → ℤ
one_more_within len (pos to) = pos (min (len - 1) to + 1)
one_more_within len (negsuc zero) = pos 0
one_more_within len (negsuc (suc n)) = negsuc n

-- The end of a slice of a list of some length.
abbrev pub slice_end : ℕ → ℤ → ℕ
slice_end len (pos n) = min n len
slice_end len (negsuc n) = len - suc n

module _ (N : Numbers) where
  open N use {Number, lit, sub, lt, le}

  pub record Column : Type 0 where
    pub time : String
    pub value : Number
    pub color : String

  pub record LegendData : Type 0 where
    pub bar : ChartBar N
    pub fast : Option Number
    pub slow : Option Number

  -- The part of the bars in view: all of them, or from one position to another.
  pub data InView : Type 0 where
    all_bars : InView
    last_bars : ℕ → InView

  -- `dataRef.current`.
  pub record ChartData : Type 0 where
    pub bars : List (ChartBar N)
    pub fast : List (EmaPoint N)
    pub slow : List (EmaPoint N)
    pub vol : List Column

  abbrev pub no_data : ChartData
  no_data = record { bars = []; fast = []; slow = []; vol = [] }

  -- The series of the present chart, and the bars that its crosshair finds.
  pub record Drawn : Type 0 where
    pub candle : List (ChartBar N)
    pub fast : List (EmaPoint N)
    pub slow : List (EmaPoint N)
    pub vol : List Column
    pub profile : List (ProfileRow N)
    pub in_view : Option InView

  abbrev pub nothing_drawn : Drawn
  nothing_drawn = record {
    candle = [];
    fast = [];
    slow = [];
    vol = [];
    profile = [];
    in_view = none;
  }

  pub record Chart : Type 0 where
    pub tf : Timeframe
    pub vis : IndicatorVis
    pub loading : Bool
    pub error : Option String
    pub legend : Option LegendData
    pub data_ref : ChartData
    pub drawn : Drawn
    pub current_run : ℕ

  abbrev pub column : ChartBar N → Column
  column b = record {
    time = b.time;
    value = b.volume;
    color = if le b.open_price b.close then "rgba(13,189,125,0.35)" else "rgba(242,61,85,0.35)";
  }

  abbrev pub shown_if {ℓ} : {A : Type ℓ} → Bool → List A → List A
  shown_if on xs = if on then xs else []

  -- The bars of a timeframe, of the candles received.
  unfoldable pub bars_of : Locale → Calendar → Timeframe → List (ChartBar N) → List (ChartBar N)
  bars_of locale calendar w1 bars = resample_weekly N locale calendar bars
  bars_of locale calendar mo1 bars = resample_monthly N locale bars
  bars_of locale calendar _ bars = bars

  abbrev pub data_of : Timeframe → List (ChartBar N) → ChartData
  data_of tf bars = record {
    bars = bars;
    fast = compute_ema N bars (tf_ema_periods tf).fast;
    slow = compute_ema N bars (tf_ema_periods tf).slow;
    vol = map column bars;
  }

  -- `fitContent`, or the last year of weeks or the last 90 days.
  abbrev pub view_of : Timeframe → InView
  view_of w1 = last_bars 52
  view_of d1 = last_bars 90
  view_of _ = all_bars

  -- The value of an average at a time, the last one that was set.
  abbrev pub value_at : String → List (EmaPoint N) → Option Number
  value_at t [] = none
  value_at t (p ∷ ps) = elim (value_at t ps) [
    | none ↦ if p.time == t then some p.value else none
    | some v ↦ some v
  ]

  abbrev pub bar_at : String → List (ChartBar N) → Option (ChartBar N)
  bar_at t [] = none
  bar_at t (b ∷ bs) = elim (bar_at t bs) [
    | none ↦ if b.time == t then some b else none
    | some c ↦ some c
  ]

  -- The first render and its effects.
  unfoldable pub open_chart : Chart
  open_chart = record {
    tf = d1;
    vis = record { ema50 = true; ema200 = true; vol = true; vp = true };
    loading = true;
    error = none;
    legend = none;
    data_ref = no_data;
    drawn = nothing_drawn;
    current_run = 0;
  }

  -- The cleanup and the effect, where the timeframe or the symbol has changed.
  unfoldable pub new_chart : Timeframe → Chart → Chart
  new_chart tf s = record s {
    tf = tf;
    loading = true;
    error = none;
    legend = none;
    drawn = nothing_drawn;
    current_run = suc s.current_run;
  }

  -- The crosshair: the bar at its time, with the values of the averages there.
  abbrev pub legend_of : ChartData → Option (ChartBar N) → Option LegendData
  legend_of d none = none
  legend_of d (some b) =
      some (record { bar = b; fast = value_at b.time d.fast; slow = value_at b.time d.slow })

  -- The maps of the crosshair are filled together with the candles of the chart.
  unfoldable pub crosshair_move : Option String → Chart → Chart
  crosshair_move none s = record s { legend = none }
  crosshair_move (some t) s = record s { legend = legend_of s.data_ref (bar_at t s.drawn.candle) }

  pub data ChartEvent : Type 0 where
    frame_chosen : Timeframe → ChartEvent
    answered : ℕ → ChartReply (List (ChartBar N)) → ChartEvent
    toggled : Indicator → Option (ℤ × ℤ) → ChartEvent
    moved : Option (ℤ × ℤ) → ChartEvent
    pointed : Option String → ChartEvent

module _ {N : Numbers} (F : Format N) (locale : Locale) (calendar : Calendar) where
  -- `drawVP`.
  abbrev pub draw_vp : IndicatorVis → List (ChartBar N) → List (ProfileRow N)
  draw_vp vis bars = shown_if N vis.vp (build_volume_profile F bars 32)

  abbrev pub drawn_of : IndicatorVis → Timeframe → ChartData N → Drawn N
  drawn_of vis tf d = record {
    candle = d.bars;
    fast = shown_if N vis.ema50 d.fast;
    slow = shown_if N vis.ema200 d.slow;
    vol = shown_if N vis.vol d.vol;
    profile = draw_vp vis d.bars;
    in_view = some (view_of N tf);
  }

  -- The answer to the request of a run; one of an earlier run is ignored.
  unfoldable pub chart_answer : ℕ → ChartReply (List (ChartBar N)) → Chart N → Chart N
  chart_answer run (failed m) s =
      if nat_eq run s.current_run then record s { error = some m; loading = false } else s
  chart_answer run (got received) s =
      let d = data_of N s.tf (bars_of N locale calendar s.tf received) in
      if nat_eq run s.current_run
      then record s { data_ref = d; drawn = drawn_of s.vis s.tf d; loading = false }
      else s

  -- `bars.slice(Math.max(0, from), Math.min(bars.length - 1, to) + 1)` for the rounded ends of the
  -- range in view; a negative end counts from the end of the bars.
  abbrev pub bars_in : Option (ℤ × ℤ) → List (ChartBar N) → List (ChartBar N)
  bars_in none bars = bars
  bars_in (some (from, to)) bars =
      let first = at_least_zero from in
      take (slice_end (length bars) (one_more_within (length bars) to) - first) (drop first bars)

  -- `refreshVP`, also on a change of the range in view.
  unfoldable pub refresh_vp : Option (ℤ × ℤ) → Chart N → Chart N
  refresh_vp range s =
      let d = s.drawn in
      record s { drawn = record d { profile = draw_vp s.vis (bars_in range s.data_ref.bars) } }

  -- A click on an indicator, and the effect that depends on `vis`.
  unfoldable pub toggle : Indicator → Option (ℤ × ℤ) → Chart N → Chart N
  unfolding refresh_vp
  toggle key range s =
      let vis = flip key s.vis in
      let d = s.drawn in
      let kept = s.data_ref in
      refresh_vp range (record s {
        vis = vis;
        drawn = record d {
          fast = shown_if N vis.ema50 kept.fast;
          slow = shown_if N vis.ema200 kept.slow;
          vol = shown_if N vis.vol kept.vol;
        };
      })

  abbrev pub chart_step : ChartEvent N → Chart N → Chart N
  chart_step (frame_chosen tf) s = new_chart N tf s
  chart_step (answered run r) s = chart_answer run r s
  chart_step (toggled key range) s = toggle key range s
  chart_step (moved range) s = refresh_vp range s
  chart_step (pointed t) s = crosshair_move N t s

  abbrev pub chart_steps : List (ChartEvent N) → Chart N → Chart N
  chart_steps [] s = s
  chart_steps (e ∷ es) s = chart_steps es (chart_step e s)
