-- ===== src/Screener/Filters.antt =====
-- `applyFilters` and `isRangeActive` of CockpitUI/src/domain/screener.ts. The callback's early
-- returns are kept in order, a definition for each block of them.
pub mod Laws
use trader_cockpit_app.Prelude.{
  ℕ, String, ◌==◌, Bool, true, false, not, ◌&&◌, ◌||◌, Option, none, some, get_or, List, truthy,
  filter, is_some, if◌then◌else◌,
}
use trader_cockpit_app.Js.Numbers.{
  Numbers, zero_n, neg_infinity, abs, differs, nonzero, truthy_number,
}
use trader_cockpit_app.Js.Collections.{Object}
use trader_cockpit_app.Js.Text.{Locale, trim, includes}
use trader_cockpit_app.Screener.Rows.{ScreenerRow, cam_levels}

pub data ScreenerPreset : Type 0 where
  near52h near52l nearpdh nearpdl : ScreenerPreset
  cam_h4x cam_s4x cam_h3rej cam_s3rej : ScreenerPreset
  vcp rect_breakout stage2 stage4 : ScreenerPreset

-- `Set<ScreenerPreset>`, read by `has`.
abbrev pub Presets : Type 0
Presets = ScreenerPreset → Bool

module _ (N : Numbers) where
  open N use {Number, lit, neg, sub, mul, div, infinity, lt, le}

  pub record ScreenerRangeFilter : Type 0 where
    pub adv_min : Number
    pub adv_max : Number
    pub atr_min : Number
    pub atr_max : Number
    pub close_min : Number
    pub close_max : Number
    pub f52h_min : Number
    pub f52h_max : Number
    pub f52l_min : Number
    pub f52l_max : Number

  abbrev pub default_range : ScreenerRangeFilter
  default_range = record {
    adv_min = zero_n N;
    adv_max = infinity;
    atr_min = zero_n N;
    atr_max = infinity;
    close_min = zero_n N;
    close_max = infinity;
    f52h_min = neg_infinity N;
    f52h_max = infinity;
    f52l_min = neg_infinity N;
    f52l_max = infinity;
  }

  -- `q && !symbol.includes(q) && !notes?.[symbol]?.toUpperCase().includes(q)`.
  unfoldable pub misses_query : Locale → String → Object String → ScreenerRow N → Bool
  misses_query locale q notes r =
      not (q == "")
      && not (includes r.symbol q)
      && not (elim (notes r.symbol) [ none ↦ false | some t ↦ includes (locale.to_upper t) q ])

  -- `v < min`, then `max !== Infinity && v > max`.
  unfoldable pub outside : Number → Number → Number → Bool
  outside lo hi v = if lt v lo then true else differs N hi infinity && lt hi v

  -- The same with a lower bound that may be -Infinity, on a value that may be missing.
  unfoldable pub outside_known : Number → Number → Option Number → Bool
  outside_known lo hi none = false
  outside_known lo hi (some v) =
      if differs N lo (neg_infinity N) && lt v lo then true else differs N hi infinity && lt hi v

  unfoldable pub out_of_range : ScreenerRangeFilter → ScreenerRow N → Bool
  out_of_range range r =
      if outside range.adv_min range.adv_max (get_or r.adv_20_cr (zero_n N))
      then true
      else if outside range.atr_min range.atr_max (get_or r.atr_14 (zero_n N))
      then true
      else if outside range.close_min range.close_max (get_or r.display_price (zero_n N))
      then true
      else if outside_known range.f52h_min range.f52h_max r.f52h
      then true
      else outside_known range.f52l_min range.f52l_max r.f52l

  abbrev pub near_high : Option Number → Bool
  near_high none = false
  near_high (some v) = le (neg (lit 5 1)) v

  abbrev pub near_low : Option Number → Bool
  near_low none = false
  near_low (some v) = le (zero_n N) v && le v (lit 10 1)

  -- Within half a percent of a level that is there and not 0.
  unfoldable pub near_level : Number → Option Number → Bool
  near_level close none = false
  near_level close (some level) =
      nonzero N level
      && lt (zero_n N) close
      && lt (abs N (div (sub close level) level)) (lit 5 1000)

  unfoldable pub fails_near : Presets → Number → ScreenerRow N → Bool
  fails_near presets close r =
      if presets near52h && not (near_high r.f52h)
      then true
      else if presets near52l && not (near_low r.f52l)
      then true
      else if presets nearpdh && not (near_level close r.prev_day_high)
      then true
      else presets nearpdl && not (near_level close r.prev_day_low)

  abbrev pub has_cam_preset : Presets → Bool
  has_cam_preset presets =
      presets cam_h4x || presets cam_s4x || presets cam_h3rej || presets cam_s3rej

  -- `price >= level * 0.995 && price <= level * 1.005`.
  abbrev pub rejects_at : Number → Number → Bool
  rejects_at price level =
      le (mul level (lit 995 1000)) price && le price (mul level (lit 1005 1000))

  unfoldable pub fails_cam_at : Presets → Number → Number → Number → Number → Bool
  fails_cam_at presets price pdh pdl pdc =
      let levels = cam_levels N pdh pdl pdc in
      if presets cam_h4x && not (lt levels.h4 price)
      then true
      else if presets cam_s4x && not (lt price levels.l4)
      then true
      else if presets cam_h3rej && not (rejects_at price levels.h3)
      then true
      else presets cam_s3rej && not (rejects_at price levels.l3)

  -- The previous day's high, low and close, where each is there and not 0.
  abbrev pub prev_day : ScreenerRow N → Option (Number × Number × Number)
  prev_day r = elim r.prev_day_high [
    | none ↦ none
    | some pdh ↦ elim r.prev_day_low [
      | none ↦ none
      | some pdl ↦ elim r.prev_day_close [
        | none ↦ none
        | some pdc ↦
            if nonzero N pdh && nonzero N pdl && nonzero N pdc then some (pdh, pdl, pdc) else none
      ]
    ]
  ]

  -- Without the previous day's levels a Camarilla preset excludes the row.
  unfoldable pub cam_verdict : Presets → Number → Option (Number × Number × Number) → Bool
  cam_verdict presets price none = true
  cam_verdict presets price (some (pdh, pdl, pdc)) = fails_cam_at presets price pdh pdl pdc

  unfoldable pub fails_cam : Presets → Number → ScreenerRow N → Bool
  fails_cam presets close r =
      if has_cam_preset presets then cam_verdict presets close (prev_day r) else false

  -- `r.stage !== name`.
  abbrev pub other_stage : Option String → String → Bool
  other_stage none name = true
  other_stage (some s) name = not (s == name)

  unfoldable pub fails_flags : Presets → ScreenerRow N → Bool
  fails_flags presets r =
      if presets stage2 && other_stage r.stage "STAGE_2"
      then true
      else if presets stage4 && other_stage r.stage "STAGE_4"
      then true
      else if presets vcp && not (truthy r.vcp_detected)
      then true
      else presets rect_breakout && not (truthy r.rect_breakout)

  -- The callback: true where it returns true.
  unfoldable pub keeps :
      Locale → String → ScreenerRangeFilter → Presets → Bool → Object String → ScreenerRow N → Bool
  keeps locale q range presets fno_only notes r =
      let close = get_or r.display_price (zero_n N) in
      if fno_only && not (truthy r.is_fno)
      then false
      else if misses_query locale q notes r
      then false
      else if out_of_range range r
      then false
      else if fails_near presets close r
      then false
      else if fails_cam presets close r
      then false
      else not (fails_flags presets r)

  unfoldable pub apply_filters :
      Locale
      → List (ScreenerRow N)
      → String
      → ScreenerRangeFilter
      → Presets
      → Bool
      → Object String
      → List (ScreenerRow N)
  apply_filters locale rows query range presets fno_only notes =
      filter (keeps locale (locale.to_upper (trim query)) range presets fno_only notes) rows

  unfoldable pub is_range_active : ScreenerRangeFilter → Bool → Bool
  is_range_active range fno_only =
      fno_only
      || lt (zero_n N) range.adv_min
      || differs N range.adv_max infinity
      || lt (zero_n N) range.atr_min
      || differs N range.atr_max infinity
      || lt (zero_n N) range.close_min
      || differs N range.close_max infinity
      || differs N range.f52h_min (neg_infinity N)
      || differs N range.f52h_max infinity
      || differs N range.f52l_min (neg_infinity N)
      || differs N range.f52l_max infinity
