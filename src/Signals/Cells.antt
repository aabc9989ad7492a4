-- ===== src/Signals/Cells.antt =====
-- What a signal's card and row show of its metrics, SignalCardMetrics.tsx and SignalRow.tsx of
-- CockpitUI/src/components/signals, and the sound of a signal, CockpitUI/src/lib/audio.ts.
use Prim.Native.String.{◌++◌ as ◌+++◌}
use trader_cockpit_app.Prelude.{
  ℕ, String, ◌&&◌, Option, none, some, List, [], ◌∷◌, ◌++◌, if◌then◌else◌,
}
use trader_cockpit_app.Js.Numbers.{Numbers, zero_n, abs, nonzero}
use trader_cockpit_app.Js.Format.{Format}
use trader_cockpit_app.Display.Fmt.{fmt2, fmt_adv, spct, plus_sign}
use trader_cockpit_app.Signals.Types.{
  Signal, SignalType, range_breakout, range_breakdown, cam_h4_breakout, cam_l4_breakdown,
  cam_h4_reversal, cam_h3_reversal, cam_l3_reversal, cam_l4_reversal,
}
use trader_cockpit_app.Signals.Market.{InstrumentMetrics}
use trader_cockpit_app.Signals.Style.{adv_color, pct_color}

-- A cell of the card.
pub record MetricCell : Type 0 where
  pub label : String
  pub text : String
  pub color : String

abbrev pub metric_cell : String → String → String → MetricCell
metric_cell label text color = record { label = label; text = text; color = color }

-- The frequencies at the start and the end of a chirp, and its length in hundredths of a second.
pub record Chirp : Type 0 where
  pub start_hz : ℕ
  pub end_hz : ℕ
  pub hundredths : ℕ

abbrev pub chirp : ℕ → ℕ → ℕ → Chirp
chirp start_hz end_hz hundredths = record {
  start_hz = start_hz;
  end_hz = end_hz;
  hundredths = hundredths;
}

abbrev pub alert_sound : SignalType → Chirp
alert_sound range_breakout = chirp 900 1800 9
alert_sound range_breakdown = chirp 1700 700 9
alert_sound cam_h3_reversal = chirp 1000 1300 7
alert_sound cam_l3_reversal = chirp 1000 1300 7
alert_sound cam_h4_breakout = chirp 850 1700 9
alert_sound cam_l4_breakdown = chirp 1600 650 9
alert_sound cam_h4_reversal = chirp 950 600 9
alert_sound cam_l4_reversal = chirp 650 1100 9

module _ {N : Numbers} (F : Format N) where
  open N use {Number, lit, sub, div, lt, le}

  -- The distance of the signal's price from a level that is there and not 0.
  unfoldable pub level_cells : String → Option Number → Option Number → List MetricCell
  level_cells label none price = []
  level_cells label (some level) none = []
  level_cells label (some level) (some price) =
      if nonzero N level
      then metric_cell label (spct F (some price) (some level)) (pct_color N price level) ∷ []
      else []

  abbrev pub atr_cells : Option Number → List MetricCell
  atr_cells none = []
  atr_cells (some v) = metric_cell "ATR" (fmt2 F (some v)) "text-amber" ∷ []

  abbrev pub adv_cells : Option Number → List MetricCell
  adv_cells none = []
  adv_cells (some v) = metric_cell "ADV" (fmt_adv F (some v)) (adv_color N v) ∷ []

  abbrev pub change_cells : Option Number → List MetricCell
  change_cells none = []
  change_cells (some v) =
      metric_cell "CHG%" (plus_sign F v +++ (F.fixed 2 v +++ "%"))
        (if le (zero_n N) v then "text-bull" else "text-bear")
      ∷ []

  -- The open is at an extreme of the day: both there and not 0, and less than a thousandth apart.
  abbrev pub open_cells :
      String → String → (Number → Number → Number) → Option Number → Option Number → List MetricCell
  open_cells text color apart none open_price = []
  open_cells text color apart (some extreme) none = []
  open_cells text color apart (some extreme) (some open_price) =
      if nonzero N extreme
        && nonzero N open_price
        && lt (div (abs N (apart extreme open_price)) open_price) (lit 1 1000)
      then metric_cell "Open" text color ∷ []
      else []

  -- The cells of a card.
  unfoldable pub card_cells : Signal N → InstrumentMetrics N → List MetricCell
  card_cells s m =
      level_cells "52H" m.week52_high s.price
      ++ (level_cells "52L" m.week52_low s.price
          ++ (atr_cells m.atr_14
              ++ (adv_cells m.adv_20_cr
                  ++ (change_cells m.day_chg_pct
                      ++ (open_cells "O=H" "text-bear" (λ high open_price. sub high open_price)
                            m.day_high m.day_open
                          ++ open_cells "O=L" "text-bull" (λ low open_price. sub open_price low)
                              m.day_low m.day_open)))))

  -- The change cell of a signal's row.
  abbrev pub row_change : Option Number → String
  row_change none = "-"
  row_change (some v) = plus_sign F v +++ (F.fixed 2 v +++ "%")

  -- `volume_ratio` of a row.
  abbrev pub ratio_text : Option Number → String
  ratio_text none = "-"
  ratio_text (some v) = F.fixed 1 v +++ "x"

  -- The entry, the stop and the target of a row, as far as they are there.
  abbrev pub plan_part : String → Option Number → List String
  plan_part label none = []
  plan_part label (some v) = (label +++ (" " +++ fmt2 F (some v))) ∷ []

  unfoldable pub trade_plan : Signal N → List String
  trade_plan s = plan_part "E" s.entry_low ++ (plan_part "SL" s.stop ++ plan_part "T1" s.target_1)
