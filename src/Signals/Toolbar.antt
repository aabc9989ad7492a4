-- ===== src/Signals/Toolbar.antt =====
-- The tables of CockpitUI/src/components/signals/signalToolbarConfig.ts.
use trader_cockpit_app.Prelude.{ℕ, String, Option, none, some, List, [], ◌∷◌}
use trader_cockpit_app.Signals.Types.{
  SignalType, SignalCategory, all_signals, break, cam, range_breakout, range_breakdown,
  cam_h4_breakout, cam_l4_breakdown, cam_h4_reversal, cam_h3_reversal, cam_l4_reversal,
  cam_l3_reversal,
}

-- `TAB_SIGNAL_TYPE`.
abbrev pub tab_signal_type : SignalCategory → SignalType
tab_signal_type all_signals = range_breakout
tab_signal_type break = range_breakout
tab_signal_type cam = cam_h4_breakout

pub record Labelled {ℓ} (A : Type ℓ) : Type ℓ where
  pub value : A
  pub label : String
  pub title : String

abbrev pub labelled {ℓ} : {A : Type ℓ} → A → String → String → Labelled A
labelled value label title = record { value = value; label = label; title = title }

abbrev pub tabs : List (Labelled SignalCategory)
tabs =
    labelled all_signals "All" "All signal categories"
    ∷ labelled break "Breakout" "Rectangle consolidation breakouts"
    ∷ labelled cam "CAM" "Camarilla pivot breakouts and reversals"
    ∷ []

abbrev pub subtypes_by_category : SignalCategory → Option (List (Labelled SignalType))
subtypes_by_category all_signals = none
subtypes_by_category break = some (
    labelled range_breakout "RNG+" "Rectangle breakout"
    ∷ labelled range_breakdown "RNG-" "Rectangle breakdown"
    ∷ [])
subtypes_by_category cam = some (
    labelled cam_h4_breakout "H4+" "H4 breakout — narrow pivot range"
    ∷ labelled cam_l4_breakdown "L4-" "L4 breakdown — narrow pivot range"
    ∷ labelled cam_h4_reversal "H4↓" "Bearish pin at H4 — wide pivot range"
    ∷ labelled cam_h3_reversal "H3↓" "Bearish pin at H3 — wide pivot range"
    ∷ labelled cam_l3_reversal "L3↑" "Bullish pin at L3 — wide pivot range"
    ∷ labelled cam_l4_reversal "L4↑" "Bullish pin at L4 — wide pivot range"
    ∷ [])

-- The least traded value in crores.
abbrev pub value_tiers : List (Labelled ℕ)
value_tiers =
    labelled 0 "All" "No liquidity filter"
    ∷ labelled 5 "5Cr+" "Minimum Rs 5 Cr average daily traded value"
    ∷ labelled 25 "25Cr+" "Minimum Rs 25 Cr average daily traded value"
    ∷ labelled 100 "100Cr+" "Minimum Rs 100 Cr average daily traded value"
    ∷ labelled 500 "500Cr+" "Minimum Rs 500 Cr average daily traded value"
    ∷ []
