-- ===== src/Signals/Types.antt =====
-- CockpitUI/src/domain/signal.ts: the data of a signal.
use trader_cockpit_app.Prelude.{ℕ, String, Bool, Option, List, [], ◌∷◌, ◌==◌}
use trader_cockpit_app.Js.Numbers.{Numbers}

pub data SignalType : Type 0 where
  range_breakout range_breakdown : SignalType
  cam_h3_reversal cam_h4_breakout cam_h4_reversal : SignalType
  cam_l3_reversal cam_l4_breakdown cam_l4_reversal : SignalType

-- The string that stands for the type on the wire and in keys.
unfoldable pub type_name : SignalType → String
type_name range_breakout = "RANGE_BREAKOUT"
type_name range_breakdown = "RANGE_BREAKDOWN"
type_name cam_h3_reversal = "CAM_H3_REVERSAL"
type_name cam_h4_breakout = "CAM_H4_BREAKOUT"
type_name cam_h4_reversal = "CAM_H4_REVERSAL"
type_name cam_l3_reversal = "CAM_L3_REVERSAL"
type_name cam_l4_breakdown = "CAM_L4_BREAKDOWN"
type_name cam_l4_reversal = "CAM_L4_REVERSAL"

pub data SignalCategory : Type 0 where
  all_signals break cam : SignalCategory

pub data Direction : Type 0 where
  bullish bearish neutral : Direction

pub data Regime : Type 0 where
  trending_up trending_down choppy squeeze neutral_regime unknown : Regime

-- An optional field is an `Option`. A missing id is the empty text: both are falsy.
pub record Signal (N : Numbers) : Type 0 where
  pub id : String
  pub symbol : String
  pub signal_type : SignalType
  pub direction : Option Direction
  pub price : Option (N.Number)
  pub volume_ratio : Option (N.Number)
  pub score : Option (N.Number)
  pub timestamp : String
  pub message : Option String
  pub bias_15m : Option Direction
  pub bias_1h : Option Direction
  pub entry_low : Option (N.Number)
  pub entry_high : Option (N.Number)
  pub stop : Option (N.Number)
  pub target_1 : Option (N.Number)
  pub trail_stop : Option (N.Number)
  pub watchlist_conflict : Option Bool
  pub regime : Option Regime
  pub count : Option ℕ
  pub dedup_key : Option String
  pub from_catchup : Option Bool
  pub catchup : Option Bool

-- CATEGORY_TYPES.
unfoldable pub category_types : SignalCategory → List SignalType
category_types all_signals = []
category_types break = range_breakout ∷ range_breakdown ∷ []
category_types cam =
    cam_h4_breakout ∷ cam_l4_breakdown ∷ cam_h4_reversal ∷ cam_h3_reversal ∷ cam_l4_reversal
    ∷ cam_l3_reversal ∷ []

-- `===` on two types: their names are compared.
abbrev pub same_type : SignalType → SignalType → Bool
unfolding type_name
same_type s t = type_name s == type_name t
