-- ===== src/Signals/Style.antt =====
-- The colours and labels of the signals in CockpitUI/src/domain/signal.ts.
use trader_cockpit_app.Prelude.{String, Option, none, some, not, if◌then◌else◌}
use trader_cockpit_app.Js.Numbers.{Numbers, zero_n, nonzero}
use trader_cockpit_app.Signals.Types.{
  Direction, SignalType, range_breakout, range_breakdown, cam_h4_breakout, cam_l4_breakdown,
  cam_h4_reversal, cam_h3_reversal, cam_l4_reversal, cam_l3_reversal,
}

pub record SignalMeta : Type 0 where
  pub color : String
  pub tint : String
  pub short : String
  pub desc : String

abbrev pub meta : SignalType → SignalMeta
meta range_breakout = record {
  color = "#1ad48d";
  tint = "rgba(26,212,141,0.05)";
  short = "RNG+";
  desc = "Rectangle consolidation broke upward on volume.";
}
meta range_breakdown = record {
  color = "#f75068";
  tint = "rgba(247,80,104,0.05)";
  short = "RNG-";
  desc = "Rectangle consolidation broke downward on volume.";
}
meta cam_h4_breakout = record {
  color = "#b490ff";
  tint = "rgba(180,144,255,0.05)";
  short = "CAM H4+";
  desc = "Closed above Camarilla H4 on volume (narrow pivot range).";
}
meta cam_l4_breakdown = record {
  color = "#b490ff";
  tint = "rgba(180,144,255,0.05)";
  short = "CAM L4-";
  desc = "Closed below Camarilla L4 on volume (narrow pivot range).";
}
meta cam_h4_reversal = record {
  color = "#9b72f7";
  tint = "rgba(155,114,247,0.05)";
  short = "CAM H4↓";
  desc = "Bearish pin bar rejection at Camarilla H4 (wide pivot range).";
}
meta cam_h3_reversal = record {
  color = "#9b72f7";
  tint = "rgba(155,114,247,0.05)";
  short = "CAM H3↓";
  desc = "Bearish pin bar rejection at Camarilla H3 (wide pivot range).";
}
meta cam_l4_reversal = record {
  color = "#9b72f7";
  tint = "rgba(155,114,247,0.05)";
  short = "CAM L4↑";
  desc = "Bullish pin bar bounce from Camarilla L4 (wide pivot range).";
}
meta cam_l3_reversal = record {
  color = "#9b72f7";
  tint = "rgba(155,114,247,0.05)";
  short = "CAM L3↑";
  desc = "Bullish pin bar bounce from Camarilla L3 (wide pivot range).";
}

-- The types have all eight entries, so the defaults after `??` are not reached.
abbrev pub signal_color : SignalType → String
signal_color type = (meta type).color

abbrev pub signal_tint : SignalType → String
signal_tint type = (meta type).tint

abbrev pub signal_short : SignalType → String
signal_short type = (meta type).short

abbrev pub signal_desc : SignalType → String
signal_desc type = (meta type).desc

abbrev pub dir_color : Option Direction → String
dir_color none = "#5a7796"
dir_color (some Direction.bullish) = "#0dbd7d"
dir_color (some Direction.bearish) = "#f23d55"
dir_color (some _) = "#5a7796"

module _ (N : Numbers) where
  open N use {Number, lit, sub, div, lt, le}

  unfoldable pub adv_color : Number → String
  adv_color cr =
      if le (lit 500 1) cr
      then "#0dbd7d"
      else if le (lit 100 1) cr
      then "#e8933a"
      else if le (lit 25 1) cr
      then "#c5d8f0"
      else "#5a7796"

  unfoldable pub pct_color : Number → Number → String
  pct_color value reference =
      let p = div (sub value reference) reference in
      if not (nonzero N reference)
      then "#5a7796"
      else if lt (zero_n N) p
      then "#0dbd7d"
      else if lt p (zero_n N)
      then "#f23d55"
      else "#5a7796"
