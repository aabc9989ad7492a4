-- ===== src/Heat/Entries.antt =====
-- The entries of the two heat maps: CockpitUI/src/components/signals/LiveHeatMapView.tsx and
-- CockpitUI/src/components/stocklist/StockListHeatMapView.tsx.
use trader_cockpit_app.Prelude.{String, Option, none, some, List, [], ◌∷◌, map, if◌then◌else◌}
use trader_cockpit_app.Js.Numbers.{Numbers, zero_n, nonzero}
use trader_cockpit_app.Js.Collections.{Object, has}
use trader_cockpit_app.Js.Text.{Locale}
use trader_cockpit_app.Js.Sort.{sort}
use trader_cockpit_app.Prices.{LivePriceData, or_else}
use trader_cockpit_app.Signals.Types.{Signal}
use trader_cockpit_app.Signals.Market.{InstrumentMetrics}
use trader_cockpit_app.Signals.Style.{signal_short}
use trader_cockpit_app.Stocks.Sorting.{StockRow}
use trader_cockpit_app.Heat.{HeatMapEntry, before_by_size}

module _ (N : Numbers) where
  open N use {Number, lit, sub, mul, div, eq}

  -- A field of a record that may be missing.
  abbrev pub field {ℓ κ} : {A : Type ℓ} {B : Type κ} → (A → Option B) → Option A → Option B
  field f none = none
  field f (some a) = f a

  -- `adv || 1`.
  abbrev pub adv_or_one : Option Number → Number
  adv_or_one none = lit 1 1
  adv_or_one (some v) = if nonzero N v then v else lit 1 1

  -- `price != null && prev ? (price - prev) / prev * 100 : otherwise`.
  unfoldable pub change_or : Option Number → Option Number → Option Number → Option Number
  change_or otherwise none prev = otherwise
  change_or otherwise (some price) none = otherwise
  change_or otherwise (some price) (some prev) =
      if nonzero N prev then some (mul (div (sub price prev) prev) (lit 100 1)) else otherwise

  unfoldable pub live_entry :
      Object (InstrumentMetrics N) → Object (LivePriceData N) → Signal N → HeatMapEntry N
  live_entry cache live_prices signal =
      let m = cache signal.symbol in
      let lp = live_prices signal.symbol in
      let price = or_else (field (λ (d : LivePriceData N). d.ltp) lp) (
        or_else (field (λ (x : InstrumentMetrics N). x.current_price) m)
          (or_else (field (λ (x : InstrumentMetrics N). x.day_close) m) signal.price)) in
      let prev =
        or_else (field (λ (d : LivePriceData N). d.prev_close) lp)
          (field (λ (x : InstrumentMetrics N). x.prev_day_close) m) in
      record {
        symbol = signal.symbol;
        adv = adv_or_one (field (λ (x : InstrumentMetrics N). x.adv_20_cr) m);
        chg_pct = change_or (field (λ (x : InstrumentMetrics N). x.day_chg_pct) m) price prev;
        price = price;
        score = signal.score;
        stage = field (λ (x : InstrumentMetrics N). x.stage) m;
        signal = some (signal_short signal.signal_type);
      }

  -- The first signal of each symbol, the symbols seen in hand.
  unfoldable pub latest_by_symbol : List String → List (Signal N) → List (Signal N)
  latest_by_symbol seen [] = []
  latest_by_symbol seen (s ∷ ss) =
      let skipped = latest_by_symbol seen ss in
      let kept = latest_by_symbol (s.symbol ∷ seen) ss in
      if has seen s.symbol then skipped else s ∷ kept

  unfoldable pub live_entries :
      Locale
      → Object (InstrumentMetrics N)
      → Object (LivePriceData N)
      → List (Signal N)
      → List (HeatMapEntry N)
  live_entries locale cache live_prices filtered =
      sort (before_by_size N locale)
        (map (live_entry cache live_prices) (latest_by_symbol [] filtered))

  abbrev pub cached_entry : InstrumentMetrics N → HeatMapEntry N
  cached_entry m = record {
    symbol = m.symbol;
    adv = adv_or_one m.adv_20_cr;
    chg_pct = m.day_chg_pct;
    price = or_else m.current_price m.day_close;
    score = none;
    stage = m.stage;
    signal = none;
  }

  -- The entries of the cache, whose metrics come in the order of the object's keys.
  unfoldable pub entries_from_cache : Locale → List (InstrumentMetrics N) → List (HeatMapEntry N)
  entries_from_cache locale metrics = sort (before_by_size N locale) (map cached_entry metrics)

  -- The entries shown: those of the signals, or where there are none those of the cache.
  abbrev pub shown_entries : List (HeatMapEntry N) → List (HeatMapEntry N) → List (HeatMapEntry N)
  shown_entries [] cached = cached
  shown_entries (e ∷ es) cached = e ∷ es

  -- `computeChgPct`.
  unfoldable pub compute_chg_pct : Option Number → Option Number → Option Number
  compute_chg_pct none prev = none
  compute_chg_pct (some ltp) none = none
  compute_chg_pct (some ltp) (some prev) =
      if eq prev (zero_n N) then none else some (mul (div (sub ltp prev) prev) (lit 100 1))

  unfoldable pub stock_entry : Object (LivePriceData N) → StockRow N → HeatMapEntry N
  stock_entry live_prices row =
      let lp = live_prices row.symbol in
      let price = or_else (field (λ (d : LivePriceData N). d.ltp) lp) row.display_price in
      let prev = or_else (field (λ (d : LivePriceData N). d.prev_close) lp) row.prev_day_close in
      record {
        symbol = row.symbol;
        adv = adv_or_one row.adv_20_cr;
        chg_pct = compute_chg_pct price prev;
        price = price;
        score = none;
        stage = row.stage;
        signal = none;
      }

  unfoldable pub stock_entries :
      Locale → Object (LivePriceData N) → List (StockRow N) → List (HeatMapEntry N)
  stock_entries locale live_prices rows =
      sort (before_by_size N locale) (map (stock_entry live_prices) rows)
