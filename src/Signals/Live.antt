-- ===== src/Signals/Live.antt =====
-- The metrics that CockpitUI/src/components/signals/SignalFeed.tsx shows: those of the cache with
-- the live prices in them, key by key.
use trader_cockpit_app.Prelude.{Option, none, some, if◌then◌else◌}
use trader_cockpit_app.Js.Numbers.{Numbers, nonzero}
use trader_cockpit_app.Js.Collections.{Object}
use trader_cockpit_app.Prices.{LivePriceData, or_else}
use trader_cockpit_app.Signals.Market.{InstrumentMetrics}

module _ (N : Numbers) where
  open N use {Number, lit, sub, mul, div}

  -- `prev ? (ltp - prev) / prev * 100 : otherwise`.
  abbrev pub change_from : Number → Option Number → Option Number → Option Number
  change_from ltp none otherwise = otherwise
  change_from ltp (some prev) otherwise =
      if nonzero N prev then some (mul (div (sub ltp prev) prev) (lit 100 1)) else otherwise

  abbrev pub with_price : Number → Option Number → InstrumentMetrics N → InstrumentMetrics N
  with_price ltp prev_close base =
      let prev = or_else prev_close base.prev_day_close in
      record base {
        current_price = some ltp;
        day_close = some ltp;
        prev_day_close = or_else prev base.prev_day_close;
        day_chg_pct = change_from ltp prev base.day_chg_pct;
      }

  abbrev pub shown_metric :
      Option (InstrumentMetrics N) → Option (LivePriceData N) → Option (InstrumentMetrics N)
  shown_metric none price = none
  shown_metric (some base) none = some base
  shown_metric (some base) (some price) = elim price.ltp [
    | none ↦ some base
    | some ltp ↦ some (with_price ltp price.prev_close base)
  ]

  unfoldable pub display_metrics :
      Object (InstrumentMetrics N) → Object (LivePriceData N) → Object (InstrumentMetrics N)
  display_metrics cache live_prices symbol = shown_metric (cache symbol) (live_prices symbol)
