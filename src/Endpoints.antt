-- ===== src/Endpoints.antt =====
-- CockpitUI/src/lib/api-config.ts: the paths of the services and the address of the web socket. The
-- browser's URL class is a parameter: reading a text, which may throw, its text, and the two parts
-- that the code reads and writes.
use Prim.Native.String.{[], ◌∷◌, ◌++◌ as ◌+++◌}
use trader_cockpit_app.Prelude.{String, ◌==◌, Option, none, some, if◌then◌else◌}

-- An address that throws has no result, and the rest is not run.
infixl 5 ◌>>=◌
abbrev ◌>>=◌ {ℓ κ} : {A : Type ℓ} {B : Type κ} → Option A → (A → Option B) → Option B
none >>= f = none
some a >>= f = f a

pub record Urls : Type 1 where
  pub Url : Type 0
  pub parse : String → Option Url
  pub to_string : Url → String
  pub protocol : Url → String
  pub with_protocol : String → Url → Url
  pub port : Url → String
  pub with_port : String → Url → Url

pub record LiveFeed : Type 0 where
  pub signals_ws : String
  pub prices_stream : String
  pub token_status : String
  pub instruments_metrics : String
  pub screener : String
  pub signal_history : String
  pub signal_history_dates : String
  pub option_chain_expiries : String
  pub option_chain : String

abbrev pub live_feed : LiveFeed
live_feed = record {
  signals_ws = "/api/v1/signals/ws";
  prices_stream = "/api/v1/prices/stream";
  token_status = "/api/v1/token/status";
  instruments_metrics = "/api/v1/instruments/metrics";
  screener = "/api/v1/screener";
  signal_history = "/api/v1/signals/history";
  signal_history_dates = "/api/v1/signals/history/dates";
  option_chain_expiries = "/api/v1/optionchain/expiries";
  option_chain = "/api/v1/optionchain";
}

pub record AdminConfig : Type 0 where
  pub datasync : String
  pub livefeed : String

abbrev pub admin_config : AdminConfig
admin_config = record { datasync = "/datasync/config"; livefeed = "/api/v1/config" }

-- A text less its last character where that is a slash: `replace(/\/$/, '')`, and the test with
-- `endsWith` followed by `slice(0, -1)`.
unfoldable pub without_last_slash : String → String
without_last_slash [] = []
without_last_slash (c ∷ s) =
    let rest = without_last_slash s in
    if s == "" then (if (c ∷ s) == "/" then [] else c ∷ s) else c ∷ rest

module _ (U : Urls) where
  open U use {Url, parse, to_string, protocol, with_protocol, port, with_port}

  abbrev pub socket_protocol : Url → Url
  socket_protocol url = with_protocol (if protocol url == "https:" then "wss:" else "ws:") url

  unfoldable pub to_web_socket_url : String → Option String
  to_web_socket_url base = do url ← parse base; some (to_string (socket_protocol url))

  abbrev pub backend_port : Url → Url
  backend_port url = if port url == "3000" then with_port "8003" url else url

  -- The origin of the window, where there is one.
  unfoldable pub get_live_feed_base_url : Option String → Option String
  unfolding without_last_slash
  get_live_feed_base_url none = some "http://localhost:8003"
  get_live_feed_base_url (some origin) = do
    url ← parse origin
    some (without_last_slash (to_string (backend_port url)))

  -- The first argument is the value of NEXT_PUBLIC_LIVE_FEED_URL.
  abbrev pub base_url : Option String → Option String → Option String
  base_url none origin = get_live_feed_base_url origin
  base_url (some configured) origin = some configured

  unfoldable pub get_signals_web_socket_url : Option String → Option String → Option String
  unfolding to_web_socket_url without_last_slash
  get_signals_web_socket_url configured origin = do
    base ← base_url configured origin
    to_web_socket_url (without_last_slash base +++ live_feed.signals_ws)
