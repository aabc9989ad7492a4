-- ===== src/Charts/Legend.antt =====
-- What CockpitUI/src/components/dashboard/ChartLegend.tsx shows: the values at the crosshair, or the
-- indicators that are switched on. Times are texts, which `fmtBarTime` leaves as they are.
use Prim.Native.String.{◌++◌ as ◌+++◌}
use trader_cockpit_app.Prelude.{
  String, Bool, Option, none, some, List, [], ◌∷◌, ◌++◌, if◌then◌else◌,
}
use trader_cockpit_app.Js.Numbers.{Numbers}
use trader_cockpit_app.Js.Format.{Format}
use trader_cockpit_app.Charts.Screen.{IndicatorVis, LegendData}
use trader_cockpit_app.Charts.Frames.{fmt_vol}

-- A span: its text and its class or colour.
pub record LegendSpan : Type 0 where
  pub text : String
  pub style : String

abbrev pub span : String → String → LegendSpan
span style text = record { text = text; style = style }

abbrev pub fast_color : String
fast_color = "#e8933a"

abbrev pub slow_color : String
slow_color = "#9b72f7"

abbrev pub span_if : Bool → LegendSpan → List LegendSpan
span_if on s = if on then s ∷ [] else []

unfoldable pub indicator_spans : IndicatorVis → String → String → List LegendSpan
indicator_spans vis fast_label slow_label =
    span_if vis.ema50 (span fast_color ("━ " +++ fast_label))
    ++ (span_if vis.ema200 (span slow_color ("━ " +++ slow_label))
        ++ (span_if vis.vol (span "rgba(13,189,125,0.6)" "▮ Vol")
            ++ span_if vis.vp (span "rgba(147,130,220,0.6)" "▮ VP")))

module _ {N : Numbers} (F : Format N) where
  open N use {Number, le}

  -- The name and the value of an average, where there is one.
  abbrev pub value_spans : String → String → Option Number → List LegendSpan
  value_spans color label none = []
  value_spans color label (some v) = span color label ∷ span "text-dim" (F.fixed 2 v) ∷ []

  -- `cls`.
  abbrev pub legend_class : LegendData N → String
  legend_class l = if le l.bar.open_price l.bar.close then "text-bull" else "text-bear"

  abbrev pub price_spans : String → String → Number → List LegendSpan
  price_spans style label v = span "text-ghost" label ∷ span style (F.fixed 2 v) ∷ []

  unfoldable pub legend_values : LegendData N → String → String → List LegendSpan
  legend_values l fast_label slow_label =
      let style = legend_class l in
      span "text-ghost" l.bar.time
      ∷ (price_spans style "O" l.bar.open_price
          ++ (price_spans style "H" l.bar.high
              ++ (price_spans style "L" l.bar.low
                  ++ (price_spans style "C" l.bar.close
                      ++ (span "text-ghost" "Vol"
                          ∷ span "text-dim" (fmt_vol F l.bar.volume)
                          ∷ (value_spans fast_color fast_label l.fast
                              ++ value_spans slow_color slow_label l.slow))))))

  unfoldable pub chart_legend :
      Option (LegendData N) → IndicatorVis → String → String → List LegendSpan
  unfolding indicator_spans legend_values
  chart_legend none vis fast_label slow_label = indicator_spans vis fast_label slow_label
  chart_legend (some l) vis fast_label slow_label = legend_values l fast_label slow_label
