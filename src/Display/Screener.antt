-- ===== src/Display/Screener.antt =====
-- CockpitUI/src/lib/screenerDisplay.ts.
use Prim.Native.String.{◌++◌ as ◌+++◌}
use trader_cockpit_app.Prelude.{String, ◌==◌, Bool, ◌&&◌, ◌||◌, Option, none, some, if◌then◌else◌}
use trader_cockpit_app.Js.Numbers.{Numbers, zero_n}
use trader_cockpit_app.Js.Format.{Format}
use trader_cockpit_app.Js.Text.{replace}

unfoldable pub screener_stage_color : Option String → String
screener_stage_color none = "rgb(var(--ghost))"
screener_stage_color (some stage) =
    if stage == "STAGE_2"
    then "rgb(var(--bull))"
    else if stage == "STAGE_4"
    then "rgb(var(--bear))"
    else if stage == "STAGE_1"
    then "rgb(var(--amber))"
    else "rgb(var(--ghost))"

unfoldable pub screener_stage_label : Option String → String
screener_stage_label none = "-"
screener_stage_label (some stage) = if stage == "" then "-" else replace stage "STAGE_" "S"

module _ {N : Numbers} (F : Format N) where
  open N use {Number, lit, neg, lt, le}

  unfoldable pub screener_pct_color : Option Number → Bool → String
  screener_pct_color none invert = "rgb(var(--ghost))"
  screener_pct_color (some value) invert =
      let score = if invert then neg value else value in
      if le (lit 2 1) score
      then "rgb(var(--bull))"
      else if le (zero_n N) score
      then "rgb(var(--fg))"
      else if le (neg (lit 3 1)) score
      then "rgb(var(--amber))"
      else "rgb(var(--bear))"

  unfoldable pub screener_pct_text : Option Number → Bool → String
  screener_pct_text none force_plus = "-"
  screener_pct_text (some value) force_plus =
      let prefix = if lt (zero_n N) value || (force_plus && le (zero_n N) value) then "+" else "" in
      prefix +++ (F.fixed 1 value +++ "%")

  unfoldable pub screener_f52h_color : Option Number → String
  screener_f52h_color none = "rgb(var(--ghost))"
  screener_f52h_color (some f52h) =
      if le (neg (lit 2 1)) f52h
      then "rgb(var(--bull))"
      else if le (neg (lit 10 1)) f52h
      then "rgb(var(--amber))"
      else "rgb(var(--bear))"

  unfoldable pub screener_f52l_color : Option Number → String
  screener_f52l_color none = "rgb(var(--ghost))"
  screener_f52l_color (some f52l) =
      if lt (lit 50 1) f52l
      then "rgb(var(--bull))"
      else if lt (lit 20 1) f52l
      then "rgb(var(--amber))"
      else if lt (lit 5 1) f52l
      then "rgb(var(--fg))"
      else "rgb(var(--bear))"
