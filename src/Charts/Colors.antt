-- ===== src/Charts/Colors.antt =====
-- CockpitUI/src/components/charts/useEChartColors.ts. What the page's style says of a property is a
-- parameter.
use Prim.Native.String.{◌++◌ as ◌+++◌}
use trader_cockpit_app.Prelude.{String, ◌==◌, Option, none, some, if◌then◌else◌}
use trader_cockpit_app.Js.Text.{trim}

pub record EChartColors : Type 0 where
  pub base : String
  pub panel : String
  pub card : String
  pub lift : String
  pub border : String
  pub rim : String
  pub fg : String
  pub dim : String
  pub ghost : String
  pub accent : String
  pub bull : String
  pub bear : String
  pub amber : String
  pub violet : String
  pub sky : String

abbrev pub fallback : EChartColors
fallback = record {
  base = "#0a0c0e";
  panel = "#121518";
  card = "#181c20";
  lift = "#1f252a";
  border = "#2f383f";
  rim = "#56646e";
  fg = "#eaeef0";
  dim = "#a0acb2";
  ghost = "#6d7c84";
  accent = "#22998b";
  bull = "#0db176";
  bear = "#e5495d";
  amber = "#de9748";
  violet = "#8e73d2";
  sky = "#4399d8";
}

-- `cssColor` of a name and its fallback; without a page there is no style.
unfoldable pub css_color : Option (String → String) → String → String → String
css_color none name other = other
css_color (some property) name other =
    let value = trim (property ("--" +++ name)) in
    if value == "" then other else "rgb(" +++ (value +++ ")")

unfoldable pub read_colors : Option (String → String) → EChartColors
read_colors style = record {
  base = css_color style "base" fallback.base;
  panel = css_color style "panel" fallback.panel;
  card = css_color style "card" fallback.card;
  lift = css_color style "lift" fallback.lift;
  border = css_color style "border" fallback.border;
  rim = css_color style "rim" fallback.rim;
  fg = css_color style "fg" fallback.fg;
  dim = css_color style "dim" fallback.dim;
  ghost = css_color style "ghost" fallback.ghost;
  accent = css_color style "accent" fallback.accent;
  bull = css_color style "bull" fallback.bull;
  bear = css_color style "bear" fallback.bear;
  amber = css_color style "amber" fallback.amber;
  violet = css_color style "violet" fallback.violet;
  sky = css_color style "sky" fallback.sky;
}
