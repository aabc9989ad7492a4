-- ===== src/Cockpit.antt =====
-- The state of the whole screen: CockpitUI/src/app/useCockpitState.ts and appTypes.ts. What JSON
-- makes of a text, and of an object of plain values, are parameters.
pub mod Storage
mod Tests
use trader_cockpit_app.Prelude.{
  String, ◌==◌, Bool, true, false, not, ◌&&◌, ◌||◌, Option, none, some, get_or, List, [], ◌∷◌,
  if◌then◌else◌,
}
use trader_cockpit_app.Js.Numbers.{Numbers, zero_n}
use trader_cockpit_app.Js.Collections.{entry}
use trader_cockpit_app.Signals.Types.{SignalCategory, all_signals, break, cam}
use trader_cockpit_app.Signals.Market.{
  MarketPhase, drive_window, execution, dead_zone, close_momentum, session_end, no_phase,
}

pub data AppView : Type 0 where
  stocks accounts live admin : AppView

pub data ThemeMode : Type 0 where
  dark light : ThemeMode

pub data ViewMode : Type 0 where
  card table heatmap : ViewMode

-- `OPEN_PHASES.has(phase)`.
abbrev pub is_open_phase : MarketPhase → Bool
is_open_phase drive_window = true
is_open_phase execution = true
is_open_phase close_momentum = true
is_open_phase _ = false

pub record ViewTab : Type 0 where
  pub key : AppView
  pub label : String
  pub caption : String

abbrev pub view_tab : AppView → String → String → ViewTab
view_tab key label caption = record { key = key; label = label; caption = caption }

abbrev pub views : List ViewTab
views =
    view_tab stocks "Stocks" "Universe + screener"
    ∷ view_tab accounts "Accounts" "Trades + performance"
    ∷ view_tab live "Live" "Signal tape"
    ∷ view_tab admin "Admin" "Trigger jobs"
    ∷ []

abbrev pub theme_name : ThemeMode → String
theme_name dark = "dark"
theme_name light = "light"

-- `stored === 'dark' || stored === 'light'`.
abbrev pub theme_named : String → Option ThemeMode
theme_named t = if t == "dark" then some dark else if t == "light" then some light else none

abbrev pub view_name : AppView → String
view_name stocks = "stocks"
view_name accounts = "accounts"
view_name live = "live"
view_name admin = "admin"

-- The member of VIEWS that a text is.
unfoldable pub view_named : String → Option AppView
view_named t =
    if t == "stocks"
    then some stocks
    else if t == "accounts"
    then some accounts
    else if t == "live"
    then some live
    else if t == "admin"
    then some admin
    else none

abbrev pub category_name : SignalCategory → String
category_name all_signals = "ALL"
category_name break = "BREAK"
category_name cam = "CAM"

-- The member of CATEGORIES that a text is.
unfoldable pub category_named : String → Option SignalCategory
category_named t =
    if t == "ALL"
    then some all_signals
    else if t == "BREAK"
    then some break
    else if t == "CAM"
    then some cam
    else none

abbrev pub view_mode_name : ViewMode → String
view_mode_name card = "card"
view_mode_name table = "table"
view_mode_name heatmap = "heatmap"

-- The member of VIEW_MODES that a text is.
unfoldable pub view_mode_named : String → Option ViewMode
view_mode_named t =
    if t == "card"
    then some card
    else if t == "table"
    then some table
    else if t == "heatmap"
    then some heatmap
    else none

module _ (N : Numbers) where
  pub record CockpitState : Type 0 where
    pub view : AppView
    pub category : SignalCategory
    pub min_adv_cr : N.Number
    pub view_mode : ViewMode
    pub show_help : Bool
    pub theme : ThemeMode
    pub sub_type : Option String
    pub fno_only : Bool

  -- The value of a field in JSON; objects and lists are not told apart further.
  pub data JsonValue : Type 0 where
    null composite : JsonValue
    bool : Bool → JsonValue
    number : N.Number → JsonValue
    text : String → JsonValue

  -- What the two keys of the storage hold.
  pub record CockpitStorage : Type 0 where
    pub theme_item : Option String
    pub state_item : Option String

  -- `JSON.parse`, none where it throws or gives null, on which reading a field throws, and otherwise
  -- the fields of what it gives; and `JSON.stringify` of an object with these fields.
  pub record CockpitJson : Type 0 where
    pub parse : String → Option (List (String × JsonValue))
    pub stringify : List (String × JsonValue) → String

  unfoldable pub first_state : CockpitState
  first_state = record {
    view = live;
    category = all_signals;
    min_adv_cr = zero_n N;
    view_mode = table;
    show_help = false;
    theme = dark;
    sub_type = none;
    fno_only = false;
  }

  -- The stored theme, or else the one that the browser prefers.
  abbrev pub preferred : Bool → ThemeMode
  preferred prefers_light = if prefers_light then light else dark

  unfoldable pub init_theme : Bool → Option String → ThemeMode
  init_theme prefers_light none = preferred prefers_light
  init_theme prefers_light (some stored) = get_or (theme_named stored) (preferred prefers_light)

  -- `set.has(value)`, with the member that the value is.
  abbrev pub member {ℓ} : {A : Type ℓ} → (String → Option A) → Option JsonValue → Option A
  member named (some (text t)) = named t
  member named _ = none

  -- `typeof value === 'number'`, and `'boolean'`.
  abbrev pub number_in : Option JsonValue → Option (N.Number)
  number_in (some (number v)) = some v
  number_in _ = none

  abbrev pub bool_in : Option JsonValue → Option Bool
  bool_in (some (bool b)) = some b
  bool_in _ = none

  -- A missing field, null or a text is taken; anything else leaves the state's own.
  abbrev pub stored_sub_type : Option JsonValue → Option String → Option String
  stored_sub_type none sub = none
  stored_sub_type (some null) sub = none
  stored_sub_type (some (text t)) sub = some t
  stored_sub_type (some _) sub = sub

  unfoldable pub take_stored : List (String × JsonValue) → CockpitState → CockpitState
  take_stored stored s = record s {
    view = get_or (member view_named (entry stored "view")) s.view;
    category = get_or (member category_named (entry stored "category")) s.category;
    min_adv_cr = get_or (number_in (entry stored "minAdvCr")) s.min_adv_cr;
    view_mode = get_or (member view_mode_named (entry stored "viewMode")) s.view_mode;
    show_help = get_or (bool_in (entry stored "showHelp")) s.show_help;
    sub_type = stored_sub_type (entry stored "subType") s.sub_type;
    fno_only = get_or (bool_in (entry stored "fnoOnly")) s.fno_only;
  }

  abbrev pub take_parsed : Option (List (String × JsonValue)) → CockpitState → CockpitState
  take_parsed none s = s
  take_parsed (some stored) s = take_stored stored s

  -- An empty text is not parsed.
  unfoldable pub restore : CockpitJson → Option String → CockpitState → CockpitState
  restore json none s = s
  restore json (some raw) s = if raw == "" then s else take_parsed (json.parse raw) s

  abbrev pub null_or_text : Option String → JsonValue
  null_or_text none = null
  null_or_text (some t) = text t

  -- The object that is stored.
  unfoldable pub stored_fields : CockpitState → List (String × JsonValue)
  stored_fields s =
      ("view", text (view_name s.view))
      ∷ ("category", text (category_name s.category))
      ∷ ("minAdvCr", number s.min_adv_cr)
      ∷ ("viewMode", text (view_mode_name s.view_mode))
      ∷ ("showHelp", bool s.show_help)
      ∷ ("subType", null_or_text s.sub_type)
      ∷ ("fnoOnly", bool s.fno_only)
      ∷ []

  -- The two effects that store.
  unfoldable pub store : CockpitJson → CockpitState → CockpitStorage
  unfolding stored_fields
  store json s = record {
    theme_item = some (theme_name s.theme);
    state_item = some (json.stringify (stored_fields s));
  }

  -- The first render with its effects, and the render with what they have read.
  unfoldable pub mount_cockpit : CockpitJson → Bool → CockpitStorage → CockpitState
  unfolding restore init_theme first_state
  mount_cockpit json prefers_light storage =
      let s = restore json storage.state_item first_state in
      record s { theme = init_theme prefers_light storage.theme_item }
