-- ===== src/Heat/Cells.antt =====
-- The cells of the treemap: `heatWeight` and the legend of CockpitUI/src/lib/heatmap.ts, and
-- CockpitUI/src/components/heatmap/heatMapOption.ts.
use Prim.Native.String.{◌++◌ as ◌+++◌}
use trader_cockpit_app.Prelude.{
  String, Option, none, some, get_or, List, [], ◌∷◌, map, if◌then◌else◌,
}
use trader_cockpit_app.Js.Numbers.{Numbers, zero_n, abs}
use trader_cockpit_app.Js.Format.{Format}
use trader_cockpit_app.Charts.{max_n, min_n}
use trader_cockpit_app.Display.Fmt.{fmt2}
use trader_cockpit_app.Heat.{HeatMapEntry, HeatStats}

pub record LegendEntry : Type 0 where
  pub label : String
  pub color : String

abbrev pub legend_entry : String → String → LegendEntry
legend_entry label color = record { label = label; color = color }

abbrev pub heat_legend : List LegendEntry
heat_legend =
    legend_entry ">+5%" "#00a972"
    ∷ legend_entry "+1.5%" "#16775f"
    ∷ legend_entry "Flat" "#879295"
    ∷ legend_entry "-1.5%" "#a84d5d"
    ∷ legend_entry "<-5%" "#d73751"
    ∷ []

module _ (N : Numbers) where
  open N use {Number, lit, neg, lt}

  unfoldable pub heat_weight : Option Number → Number
  heat_weight pct =
      let mag = abs N (get_or pct (zero_n N)) in
      if lt mag (lit 5 100) then lit 35 100 else max_n N (lit 35 100) (min_n N mag (lit 8 1))

  -- `heatColor`, the colour of a cell of the treemap.
  unfoldable pub heat_color : Option Number → String
  heat_color none = "#1f252a"
  heat_color (some pct) =
      if lt (lit 5 1) pct
      then "#00a972"
      else if lt (lit 3 1) pct
      then "#078d67"
      else if lt (lit 15 10) pct
      then "#16775f"
      else if lt (lit 5 10) pct
      then "#2f665a"
      else if lt (neg (lit 5 10)) pct
      then "#879295"
      else if lt (neg (lit 15 10)) pct
      then "#8b5d66"
      else if lt (neg (lit 3 1)) pct
      then "#a84d5d"
      else if lt (neg (lit 5 1)) pct
      then "#bf4055"
      else "#d73751"

  -- An element of the treemap's data, apart from the entry's own fields.
  pub record HeatCell : Type 0 where
    pub entry : HeatMapEntry N
    pub name : String
    pub value : Number
    pub color : String

  abbrev pub heat_cell : HeatMapEntry N → HeatCell
  heat_cell e = record {
    entry = e;
    name = e.symbol;
    value = heat_weight e.chg_pct;
    color = heat_color e.chg_pct;
  }

  unfoldable pub heat_cells : List (HeatMapEntry N) → List HeatCell
  heat_cells entries = map heat_cell entries

module _ {N : Numbers} (F : Format N) where
  open N use {Number, lt}

  abbrev pub move_text : Option Number → String
  move_text none = "-"
  move_text (some pct) = (if lt (zero_n N) pct then "+" else "") +++ (F.fixed 2 pct +++ "%")

  abbrev pub score_text : Option Number → String
  score_text none = "-"
  score_text (some v) = F.fixed 0 v

  unfoldable pub heat_tooltip : HeatMapEntry N → String
  heat_tooltip d =
      "<b>"
      +++ (d.symbol
          +++ ("</b><br/>Move: "
              +++ (move_text d.chg_pct
                  +++ ("<br/>Price: "
                      +++ (fmt2 F d.price
                          +++ ("<br/>Score: "
                              +++ (score_text d.score
                                  +++ ("<br/>ADV: " +++ (fmt2 F (some d.adv) +++ "Cr")))))))))

  abbrev pub price_line : Option Number → String
  price_line none = ""
  price_line (some p) = "\n" +++ fmt2 F (some p)

  unfoldable pub heat_label : HeatMapEntry N → String
  heat_label d =
      "{sym|"
      +++ (d.symbol +++ ("}\n{move|" +++ (move_text d.chg_pct +++ ("}" +++ price_line d.price))))

  -- The figures of the header: gainers, losers, flat and the average move, each with its class.
  pub record HeadMetric : Type 0 where
    pub label : String
    pub value : String
    pub tone : String

  abbrev pub head_metric : String → String → String → HeadMetric
  head_metric label value tone = record { label = label; value = value; tone = tone }

  abbrev pub avg_metric : Option Number → HeadMetric
  avg_metric none = head_metric "Avg" "-" "text-dim"
  avg_metric (some avg) =
      head_metric "Avg" (move_text (some avg))
        (if N.le (zero_n N) avg then "text-bull" else "text-bear")

  unfoldable pub head_metrics : HeatStats N → List HeadMetric
  head_metrics stats =
      head_metric "Gainers" (F.shown (N.lit stats.gainers 1)) "text-bull"
      ∷ head_metric "Losers" (F.shown (N.lit stats.losers 1)) "text-bear"
      ∷ head_metric "Flat" (F.shown (N.lit stats.flat 1)) "text-dim"
      ∷ avg_metric stats.avg_move
      ∷ head_metric "Min ADV" "20Cr" "text-dim"
      ∷ []
