-- ===== src/Signals/Filter.antt =====
-- `filterSignals` of CockpitUI/src/domain/signal.ts. A `null` entry of the metrics cache is a
-- missing one: both are falsy.
pub mod Laws
use trader_cockpit_app.Prelude.{
  ℕ, Bool, true, false, not, ◌&&◌, ◌||◌, Option, none, some, List, [], ◌∷◌, get_or, truthy, any,
  filter, if◌then◌else◌,
}
use trader_cockpit_app.Js.Numbers.{Numbers, zero_n}
use trader_cockpit_app.Js.Collections.{Object}
use trader_cockpit_app.Signals.Types.{
  Signal, SignalType, SignalCategory, all_signals, break, cam, category_types, same_type,
}
use trader_cockpit_app.Signals.Market.{InstrumentMetrics}

-- `category !== 'ALL'`.
abbrev pub is_all : SignalCategory → Bool
is_all all_signals = true
is_all break = false
is_all cam = false

-- `allowed.includes(t)`.
abbrev pub includes_type : List SignalType → SignalType → Bool
includes_type allowed t = any (λ a. same_type a t) allowed

-- `subType && t !== subType`.
abbrev pub other_sub_type : Option SignalType → SignalType → Bool
other_sub_type none t = false
other_sub_type (some u) t = not (same_type t u)

module _ (N : Numbers) where
  -- `metricsCache[symbol]?.is_fno`.
  abbrev pub is_fno_of : Option (InstrumentMetrics N) → Bool
  is_fno_of none = false
  is_fno_of (some m) = truthy m.is_fno

  -- `metrics && (metrics.adv_20_cr ?? 0) < minAdvCr`.
  abbrev pub illiquid : Option (InstrumentMetrics N) → N.Number → Bool
  illiquid none min_adv = false
  illiquid (some m) min_adv = N.lt (get_or m.adv_20_cr (zero_n N)) min_adv

  -- The callback of the filter, in the order of its early returns.
  unfoldable pub passes :
      SignalCategory
      → N.Number
      → Object (InstrumentMetrics N)
      → Option SignalType
      → Bool
      → Signal N
      → Bool
  passes category min_adv cache sub_type fno_only s =
      if not (is_all category) && not (includes_type (category_types category) s.signal_type)
      then false
      else if other_sub_type sub_type s.signal_type
      then false
      else if fno_only && not (is_fno_of (cache s.symbol))
      then false
      else if N.lt (zero_n N) min_adv && illiquid (cache s.symbol) min_adv
      then false
      else true

  unfoldable pub filter_signals :
      List (Signal N)
      → SignalCategory
      → N.Number
      → Object (InstrumentMetrics N)
      → Option SignalType
      → Bool
      → List (Signal N)
  unfolding passes
  filter_signals signals category min_adv cache sub_type fno_only =
      filter (passes category min_adv cache sub_type fno_only) signals
