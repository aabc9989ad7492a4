-- ===== src/Heat/Tile.antt =====
-- What CockpitUI/src/components/heatmap/HeatMapCell.tsx shows of an entry. A width or height that is
-- given is a number or a text of the style; without one the entry's own size holds.
use Prim.Native.String.{◌++◌ as ◌+++◌}
use trader_cockpit_app.Prelude.{
  ℕ, String, ◌==◌, Bool, true, not, ◌&&◌, Option, none, some, leb, if◌then◌else◌,
}
use trader_cockpit_app.Js.Numbers.{Numbers, zero_n}
use trader_cockpit_app.Js.Format.{Format}
use trader_cockpit_app.Display.Fmt.{fmt2}
use trader_cockpit_app.Heat.{HeatMapEntry, heat_size, heat_chg_color, heat_text_color}

pub data Extent : Type 0 where
  pixels : ℕ → Extent
  css : String → Extent

abbrev pub extent_or : Option Extent → ℕ → Extent
extent_or none own = pixels own
extent_or (some given) own = given

-- Whether a height has room from `least` pixels on; a text is taken to have it.
abbrev pub has_room : ℕ → Extent → Bool
has_room least (pixels h) = leb least h
has_room least (css t) = true

abbrev pub text_if : Bool → Option String → Option String
text_if room none = none
text_if room (some t) = if room && not (t == "") then some t else none

pub record HeatTile : Type 0 where
  pub title : String
  pub width : Extent
  pub height : Extent
  pub background : String
  pub color : String
  pub signal : Option String
  pub price : Option String
  pub change : String
  pub score : Option String
  pub stage : Option String

module _ {N : Numbers} (F : Format N) where
  open N use {Number, lt}

  abbrev pub tile_title : String → Option Number → String
  tile_title symbol none = symbol
  tile_title symbol (some pct) = symbol +++ (" " +++ (F.fixed 2 pct +++ "%"))

  abbrev pub tile_change : Option Number → String
  tile_change none = "-"
  tile_change (some pct) = (if lt (zero_n N) pct then "+" else "") +++ (F.fixed 2 pct +++ "%")

  abbrev pub number_if : Bool → (Number → String) → Option Number → Option String
  number_if room show none = none
  number_if room show (some v) = if room then some (show v) else none

  unfoldable pub heat_tile : Option Extent → Option Extent → HeatMapEntry N → HeatTile
  heat_tile width height entry =
      let size = heat_size N entry.adv entry.chg_pct in
      let resolved_height = extent_or height size.1 in
      let show_meta = has_room 58 resolved_height in
      let show_stage = has_room 76 resolved_height in
      record {
        title = tile_title entry.symbol entry.chg_pct;
        width = extent_or width size.0;
        height = resolved_height;
        background = heat_chg_color N entry.chg_pct;
        color = heat_text_color N entry.chg_pct;
        signal = text_if show_meta entry.signal;
        price = number_if show_meta (λ v. fmt2 F (some v)) entry.price;
        change = tile_change entry.chg_pct;
        score = number_if show_meta (F.fixed 0) entry.score;
        stage = text_if show_stage entry.stage;
      }
