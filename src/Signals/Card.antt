-- ===== src/Signals/Card.antt =====
-- What a signal's card shows beside its metrics: SignalCardHeader.tsx, LevelRow.tsx, BiasTag.tsx and
-- SignalCard.tsx of CockpitUI/src/components/signals. A part that is not shown is none.
use Prim.Native.String.{◌++◌ as ◌+++◌}
use trader_cockpit_app.Prelude.{
  ℕ, String, Bool, false, not, Option, none, some, get_or, is_some, List, [], ◌∷◌, ◌++◌, ltb,
  if◌then◌else◌,
}
use trader_cockpit_app.Js.Numbers.{Numbers}
use trader_cockpit_app.Js.Format.{Format, Dates}
use trader_cockpit_app.Display.Fmt.{fmt2, time_str}
use trader_cockpit_app.Signals.Types.{Signal, SignalType, Direction}
use trader_cockpit_app.Signals.Market.{InstrumentMetrics}
use trader_cockpit_app.Signals.Style.{dir_color, signal_color, signal_short, signal_desc}

pub record Tag : Type 0 where
  pub text : String
  pub color : String

abbrev pub tag : String → String → Tag
tag text color = record { text = text; color = color }

-- BiasTag, which is shown of the two directions only.
unfoldable pub bias_tags : String → Option Direction → List Tag
bias_tags label (some Direction.bullish) =
    tag (label +++ " UP") (dir_color (some Direction.bullish)) ∷ []
bias_tags label (some Direction.bearish) =
    tag (label +++ " DN") (dir_color (some Direction.bearish)) ∷ []
bias_tags label _ = []

abbrev pub tag_if : Bool → Tag → List Tag
tag_if on t = if on then t ∷ [] else []

abbrev pub flag_of : Option Bool → Bool
flag_of b = get_or b false

abbrev pub has_fno : {N : Numbers} → Option (InstrumentMetrics N) → Bool
has_fno none = false
has_fno (some m) = flag_of m.is_fno

pub record TypeBadge : Type 0 where
  pub text : String
  pub color : String
  pub title : String

-- SignalTypeBadge, with its description; the tints of the colour are left.
unfoldable pub type_badge : SignalType → TypeBadge
type_badge t = record { text = signal_short t; color = signal_color t; title = signal_desc t }

pub record CardHeader : Type 0 where
  pub dot : String
  pub symbol : String
  pub badges : List Tag
  pub time : String
  pub type_badge : TypeBadge
  pub conflict : Bool
  pub price : String
  pub volume : Option String
  pub bias : List Tag

-- `E`, `SL` and `T1`.
pub record LevelRow : Type 0 where
  pub entry : String
  pub stop : String
  pub target : String

pub record SignalCard : Type 0 where
  pub animated : Bool
  pub title : String
  pub stripe : String
  pub header : CardHeader
  pub levels : Option LevelRow
  pub shows_metrics : Bool
  pub shows_option_chain : Bool
  pub score : Option String

module _ {N : Numbers} (F : Format N) (D : Dates N) where
  open N use {Number, lit}

  -- The count of a row that has come several times.
  abbrev pub count_tags : Option ℕ → List Tag
  count_tags none = []
  count_tags (some n) = tag_if (ltb 1 n) (tag (F.shown (lit n 1) +++ "x") "amber")

  abbrev pub volume_text : Option Number → Option String
  volume_text none = none
  volume_text (some v) = some (F.fixed 1 v +++ "x vol")

  unfoldable pub card_header : Signal N → Option (InstrumentMetrics N) → CardHeader
  unfolding bias_tags type_badge
  card_header s m = record {
    dot = dir_color s.direction;
    symbol = s.symbol;
    badges = count_tags s.count ++ tag_if (has_fno m) (tag "F&O" "violet");
    time = time_str D (some s.timestamp);
    type_badge = type_badge s.signal_type;
    conflict = flag_of s.watchlist_conflict;
    price = fmt2 F s.price;
    volume = volume_text s.volume_ratio;
    bias = bias_tags "15m" s.bias_15m ++ bias_tags "1h" s.bias_1h;
  }

  unfoldable pub level_row : Option Number → Option Number → Option Number → Option LevelRow
  level_row none none none = none
  level_row entry stop target =
      some (record { entry = fmt2 F entry; stop = fmt2 F stop; target = fmt2 F target })

  abbrev pub card_score : Option Number → Option String
  card_score none = none
  card_score (some v) = some ("Score " +++ F.fixed 0 v)

  unfoldable pub signal_card : Signal N → Option (InstrumentMetrics N) → SignalCard
  unfolding card_header level_row
  signal_card s m = record {
    animated = not (flag_of s.from_catchup);
    title = "Open " +++ (s.symbol +++ " chart");
    stripe = signal_color s.signal_type;
    header = card_header s m;
    levels = level_row s.entry_low s.stop s.target_1;
    shows_metrics = is_some m;
    shows_option_chain = has_fno m;
    score = card_score s.score;
  }
