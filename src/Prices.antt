-- ===== src/Prices.antt =====
-- Live prices of CockpitUI/src/hooks/useLivePrices.ts: the shared table and one use of the hook,
-- from the run of its effect on.
pub mod Agreement
pub mod Flash
pub mod Stream
mod Tests
use trader_cockpit_app.Prelude.{
  String, ◌==◌, Bool, true, false, not, ◌&&◌, Option, none, some, List, [], ◌∷◌, any, if◌then◌else◌,
}
use trader_cockpit_app.Js.Numbers.{Numbers}
use trader_cockpit_app.Js.Collections.{Object, put, empty_object}
use trader_cockpit_app.Signals.Market.{InstrumentMetrics}

-- `a ?? b`.
abbrev pub or_else {ℓ} : {A : Type ℓ} → Option A → Option A → Option A
or_else none b = b
or_else (some a) b = some a

abbrev pub tracks : List String → String → Bool
tracks symbols symbol = any (λ s. s == symbol) symbols

module _ (N : Numbers) where
  open N use {Number}

  pub record LivePriceData : Type 0 where
    pub ltp : Option Number
    pub prev_close : Option Number

  pub record LivePrices : Type 0 where
    pub shared : Object LivePriceData
    pub prices : Object LivePriceData
    pub symbols : List String
    pub active : Bool

  abbrev pub ltp_of : Option LivePriceData → Option Number
  ltp_of none = none
  ltp_of (some p) = p.ltp

  abbrev pub prev_close_of : Option LivePriceData → Option Number
  prev_close_of none = none
  prev_close_of (some p) = p.prev_close

  unfoldable pub pick_prices : List String → Object LivePriceData → Object LivePriceData
  pick_prices symbols shared symbol = if tracks symbols symbol then shared symbol else none

  -- The effect's first writes.
  unfoldable pub watch : List String → Object LivePriceData → LivePrices
  watch symbols shared = record {
    shared = shared;
    prices = pick_prices symbols shared;
    symbols = symbols;
    active = true;
  }

  -- The symbol and price of a message that the stream's handler does not drop.
  unfoldable pub price_in : Option String → Option String → Option Number → Option (String × Number)
  price_in (some type) (some symbol) (some price) =
      if type == "price" && not (symbol == "") then some (symbol, price) else none
  price_in _ _ _ = none

  -- `onmessage`, and the hook's listener.
  unfoldable pub take_price : Option (String × Number) → LivePrices → LivePrices
  take_price none s = s
  take_price (some (symbol, price)) s =
      let next : LivePriceData = record {
        ltp = some price;
        prev_close = prev_close_of (s.shared symbol);
      } in
      record s {
        shared = put symbol next s.shared;
        prices = if s.active && tracks s.symbols symbol then put symbol next s.prices else s.prices;
      }

  abbrev pub metric_price : InstrumentMetrics N → LivePriceData
  metric_price m = record {
    ltp = or_else m.current_price m.day_close;
    prev_close = m.prev_day_close;
  }

  -- A streamed price stands over a fetched one, and a fetched close over a known one.
  unfoldable pub merge_metric_price : Option LivePriceData → LivePriceData → LivePriceData
  merge_metric_price current metric = record {
    ltp = or_else (ltp_of current) metric.ltp;
    prev_close = or_else metric.prev_close (prev_close_of current);
  }

  -- The loop over the answer, with the shared table and `map`.
  unfoldable pub merge_all :
      List (String × InstrumentMetrics N)
      → Object LivePriceData × Object LivePriceData
      → Object LivePriceData × Object LivePriceData
  merge_all [] r = r
  merge_all ((symbol, m) ∷ rest) (shared, map) =
      let next = merge_metric_price (shared symbol) (metric_price m) in
      merge_all rest (put symbol next shared, put symbol next map)

  -- The answer to the request for metrics; none where it failed or is null.
  unfoldable pub take_metrics :
      Option (List (String × InstrumentMetrics N)) → LivePrices → LivePrices
  take_metrics none s = s
  take_metrics (some data_) s =
      let r = merge_all data_ (s.shared, empty_object) in
      if s.active then record s { shared = r.0; prices = λ k. or_else (r.1 k) (s.prices k) } else s

  unfoldable pub stop_watching : LivePrices → LivePrices
  stop_watching s = record s { active = false }

  pub data PriceStep : Type 0 where
    streamed : Option String → Option String → Option Number → PriceStep
    fetched : Option (List (String × InstrumentMetrics N)) → PriceStep

  unfoldable pub price_steps : List PriceStep → LivePrices → LivePrices
  price_steps [] s = s
  price_steps (streamed type symbol price ∷ es) s =
      price_steps es (take_price (price_in type symbol price) s)
  price_steps (fetched answer ∷ es) s = price_steps es (take_metrics answer s)
