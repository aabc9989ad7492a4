-- ===== src/Signals/Hook.antt =====
-- The state of the hook `useSignals` in CockpitUI/src/hooks/useSignals.ts and its handlers. The refs
-- and the React state are one record; each handler is one step, since the browser runs handlers one
-- at a time. `sounds` and `requests` record the calls of `alertSound` and the POSTs of
-- `flushMetricsBatch`, newest last. The timer is a flag: the host runs `flush` only while it is set.
pub mod Invariant
pub mod Pause
use trader_cockpit_app.Prelude.{
  ℕ, String, ◌==◌, Bool, true, false, not, Option, none, some, get_or, List, [], ◌∷◌, ◌++◌, ◌≡◌,
  if◌then◌else◌, length,
}
use trader_cockpit_app.Js.Numbers.{Numbers}
use trader_cockpit_app.Js.Collections.{Object, empty_object, put, spread, has, add}
use trader_cockpit_app.Signals.Types.{Signal, SignalType, Regime}
use trader_cockpit_app.Signals.Market.{
  MarketPhase, MarketStatus, Bias, IndexName, InstrumentMetrics, no_phase, nifty, banknifty, sensex,
}
use trader_cockpit_app.Signals.Market
use trader_cockpit_app.Signals.Feed.{prepare, ingest, apply_regime, restore_signals}

-- DEFAULT_MARKET.
abbrev pub default_market : MarketStatus
default_market = record { phase = no_phase; bias = λ i. Bias.neutral }

module _ (N : Numbers) where
  pub record Hook : Type 0 where
    pub signals : List (Signal N)
    pub paused : Bool
    pub pending_count : ℕ
    pub metrics_cache : Object (InstrumentMetrics N)
    pub market_status : MarketStatus
    pub pending : List (Signal N)
    pub fetching : List String
    pub regime_by_symbol : Object Regime
    pub metrics_pending : List String
    pub metrics_timer : Bool
    pub sounds : List SignalType
    pub requests : List (List String)

  -- What the socket delivers, once parsed. Text that is no JSON, and data that is no text, is
  -- `ignored`; an object of neither envelope type is taken for a signal.
  pub data Message : Type 0 where
    ignored : Message
    market : Option MarketPhase → Option Bias → Option Bias → Option Bias → Message
    regime_update : String → Option Regime → Message
    signal : Signal N → Message

  unfoldable pub init : Option (List (Signal N)) → Hook
  init session = record {
    signals = restore_signals N session;
    paused = false;
    pending_count = 0;
    metrics_cache = empty_object;
    market_status = default_market;
    pending = [];
    fetching = [];
    regime_by_symbol = empty_object;
    metrics_pending = [];
    metrics_timer = false;
    sounds = [];
    requests = [];
  }

  unfoldable pub queue_metrics : String → Hook → Hook
  queue_metrics symbol h = if has h.fetching symbol then h else record h {
    fetching = add h.fetching symbol;
    metrics_pending = add h.metrics_pending symbol;
    metrics_timer = true;
  }

  -- Nothing is posted for no symbols.
  abbrev pub post : List String → Hook → Hook
  post [] h = h
  post (s ∷ ss) h = record h { requests = h.requests ++ ((s ∷ ss) ∷ []) }

  unfoldable pub flush_metrics_batch : Hook → Hook
  flush_metrics_batch h =
      post h.metrics_pending (record h { metrics_pending = []; metrics_timer = false })

  -- An absent or empty answer leaves the cache alone.
  unfoldable pub merge_metrics : Option (List (String × InstrumentMetrics N)) → Hook → Hook
  merge_metrics none h = h
  merge_metrics (some []) h = h
  merge_metrics (some (e ∷ es)) h = record h { metrics_cache = spread h.metrics_cache (e ∷ es) }

  -- The rows and the sound, before the metrics are asked for.
  abbrev pub with_signal : Signal N → Hook → Hook
  with_signal s h =
      let r = ingest N s h.signals in record h { signals = r.0; sounds = h.sounds ++ r.1 }

  unfoldable pub push_signal : Signal N → Hook → Hook
  push_signal raw h =
      let s = prepare N h.regime_by_symbol raw in queue_metrics s.symbol (with_signal s h)

  unfoldable pub push_all : List (Signal N) → Hook → Hook
  push_all [] h = h
  push_all (s ∷ ss) h = push_all ss (push_signal s h)

  abbrev pub index_bias : Option Bias → Option Bias → Option Bias → IndexName → Bias
  index_bias n b s nifty = get_or n Bias.neutral
  index_bias n b s banknifty = get_or b Bias.neutral
  index_bias n b s sensex = get_or s Bias.neutral

  -- `regimeBySymbolRef.current[symbol] = regime`, where the regime may be missing.
  abbrev pub put_regime : String → Option Regime → Object Regime → Object Regime
  put_regime symbol r o j = if j == symbol then r else o j

  -- `onmessage`.
  unfoldable pub receive : Message → Hook → Hook
  receive ignored h = h
  receive (market phase n b s) h = record h {
    market_status = record { phase = get_or phase no_phase; bias = index_bias n b s };
  }
  receive (regime_update symbol r) h = record h {
    regime_by_symbol = put_regime symbol r h.regime_by_symbol;
    signals = apply_regime N symbol r h.signals;
  }
  receive (signal s) h =
      if h.paused
      then record h {
        pending = h.pending ++ (s ∷ []);
        pending_count = length (h.pending ++ (s ∷ []));
      }
      else push_signal s h

  -- Pausing only sets the flag; resuming empties the queue, then pushes what it held in order.
  unfoldable pub toggle_pause : Hook → Hook
  toggle_pause h =
      if h.paused
      then push_all h.pending (record h { paused = false; pending = []; pending_count = 0 })
      else record h { paused = true }

  unfoldable pub clear_signals : Hook → Hook
  clear_signals h = record h { signals = []; pending = []; pending_count = 0 }

  -- What can happen to the hook.
  pub data Event : Type 0 where
    message : Message → Event
    pause_button clear_button metrics_due : Event
    metrics_arrive : Option (List (String × InstrumentMetrics N)) → Event

  -- A due timer that is not set does not run.
  unfoldable pub step : Event → Hook → Hook
  step (message m) h = receive m h
  step pause_button h = toggle_pause h
  step clear_button h = clear_signals h
  step metrics_due h = if h.metrics_timer then flush_metrics_batch h else h
  step (metrics_arrive d) h = merge_metrics d h

  unfoldable pub run : List Event → Hook → Hook
  run [] h = h
  run (e ∷ es) h = run es (step e h)
