-- ===== src/Admin.antt =====
-- The admin panel: the tables of CockpitUI/src/components/admin/adminConstants.ts with the types of
-- adminTypes.ts, and its panes.
pub mod Config
pub mod Token
use trader_cockpit_app.Prelude.{ℕ, String, Bool, true, false, Option, none, some, List, [], ◌∷◌}
use trader_cockpit_app.Js.Numbers.{Numbers}

pub data AdminSection : Type 0 where
  full_sync zerodha token config_datasync config_livefeed : AdminSection

pub record NavItem : Type 0 where
  pub key : AdminSection
  pub label : String
  pub caption : String
  pub group : Option String

abbrev pub nav_item : AdminSection → String → String → Option String → NavItem
nav_item key label caption group = record {
  key = key;
  label = label;
  caption = caption;
  group = group;
}

abbrev pub nav : List NavItem
nav =
    nav_item full_sync "Full Sync" "Run full pipeline" none
    ∷ nav_item zerodha "Zerodha" "Account login" none
    ∷ nav_item token "Token" "Update Dhan token" none
    ∷ nav_item config_datasync "Data Sync" "Sync params" (some "Config")
    ∷ nav_item config_livefeed "Live Feed" "Signal thresholds" (some "Config")
    ∷ []

pub data FieldType : Type 0 where
  int float bool string : FieldType

-- The section of a config pane, or nothing; and which of the fetched configs it starts from.
abbrev pub is_config : AdminSection → Bool
is_config config_datasync = true
is_config config_livefeed = true
is_config _ = false

pub record InitialConfigs {ℓ} (A : Type ℓ) : Type ℓ where
  pub datasync : Option A
  pub livefeed : Option A

abbrev pub config_data {ℓ} : {A : Type ℓ} → AdminSection → Option (InitialConfigs A) → Option A
config_data config_datasync (some c) = c.datasync
config_data config_livefeed (some c) = c.livefeed
config_data _ _ = none

module _ (N : Numbers) where
  open N use {Number, lit}

  pub record FieldDef : Type 0 where
    pub key : String
    pub label : String
    pub field_type : FieldType
    pub group : Option String
    pub min : Option Number
    pub max : Option Number
    pub step : Option Number

  pub record ServiceConfigDef : Type 0 where
    pub id : String
    pub name : String
    pub endpoint : String
    pub fields : List FieldDef

  -- A numeric field with its bounds, as a fraction where it is one.
  abbrev pub bounded :
      String → String → FieldType → String → Number → Number → Option Number → FieldDef
  bounded key label t group low high step = record {
    key = key;
    label = label;
    field_type = t;
    group = some group;
    min = some low;
    max = some high;
    step = step;
  }

  abbrev pub int_field : String → String → String → ℕ → ℕ → FieldDef
  int_field key label group low high = bounded key label int group (lit low 1) (lit high 1) none

  abbrev pub float_field : String → String → String → ℕ → Number → Number → FieldDef
  float_field key label group low high step =
      bounded key label float group (lit low 1) high (some step)

  abbrev pub text_field : String → String → String → FieldDef
  text_field key label group = record {
    key = key;
    label = label;
    field_type = string;
    group = some group;
    min = none;
    max = none;
    step = none;
  }

  -- `SERVICE_CONFIGS['config-datasync']` and `SERVICE_CONFIGS['config-livefeed']`.
  abbrev pub datasync_config : ServiceConfigDef
  datasync_config = record {
    id = "datasync";
    name = "Data Sync";
    endpoint = "/datasync/config";
    fields =
        int_field "sync_batch_size" "Symbols per batch" "Sync" 1 500
        ∷ float_field "sync_batch_delay_s" "Batch delay (s)" "Sync" 0 (lit 30 1) (lit 1 10)
        ∷ int_field "sync_1d_history_days" "Daily history window (days)" "Sync" 30 3650
        ∷ int_field "dhan_1min_rate_per_sec" "Dhan 1-min req/sec" "Dhan API" 1 20
        ∷ int_field "dhan_daily_budget" "Daily API budget" "Dhan API" 100 50000
        ∷ int_field "dhan_budget_safety" "Budget safety buffer" "Dhan API" 0 1000
        ∷ float_field "dhan_master_timeout_s" "Master CSV timeout (s)" "Dhan API" 5 (lit 120 1)
            (lit 1 1)
        ∷ text_field "zerodha_performance_start_date" "Performance start date" "Zerodha"
        ∷ [];
  }

  abbrev pub livefeed_config : ServiceConfigDef
  livefeed_config = record {
    id = "livefeed";
    name = "Live Feed";
    endpoint = "/api/v1/config";
    fields =
        float_field "camarilla_vol_ratio" "Camarilla vol ratio" "Camarilla" 1 (lit 10 1) (lit 1 10)
        ∷ int_field "range_lookback" "Range lookback bars" "Range" 2 30
        ∷ float_field "range_vol_ratio" "Range vol ratio" "Range" 1 (lit 10 1) (lit 1 10)
        ∷ float_field "range_max_pct" "Max range width %" "Range" 0 (lit 1 10) (lit 1 1000)
        ∷ float_field "min_adv_cr" "Min ADV (₹Cr)" "Noise" 0 (lit 100 1) (lit 5 10)
        ∷ int_field "cluster_max_per_candle" "Max signals/candle" "Noise" 1 20
        ∷ int_field "confluence_15m_candles" "15m candles" "Confluence" 1 20
        ∷ int_field "confluence_1h_candles" "1h candles" "Confluence" 1 50
        ∷ float_field "confluence_min_move_pct" "Min move %" "Confluence" 0 (lit 5 1) (lit 1 100)
        ∷ int_field "candle_minutes" "Candle size (min)" "Feed" 1 60
        ∷ int_field "dhan_ws_batch_size" "WS subscription batch" "Feed" 50 1000
        ∷ float_field "dhan_reconnect_delay_s" "WS reconnect delay (s)" "Feed" 1 (lit 60 1)
            (lit 5 10)
        ∷ [];
  }

  abbrev pub service_configs : AdminSection → Option ServiceConfigDef
  service_configs config_datasync = some datasync_config
  service_configs config_livefeed = some livefeed_config
  service_configs _ = none
