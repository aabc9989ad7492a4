-- ===== src/Screener/Tests.antt =====
-- Runs of the screener on concrete rows, and the theorems at inputs that meet their conditions.
use trader_cockpit_app.Prelude.{
  String, true, false, none, some, List, [], ◌∷◌, ◌≡◌, refl, All, ◌||◌, map, IsSublist, arith,
}
use trader_cockpit_app.Js.Numbers.{Numbers, nonzero}
use trader_cockpit_app.Js.Collections.{empty_object}
use trader_cockpit_app.Js.Text.{trim}
use trader_cockpit_app.Js.PlainLocale.{plain_locale}
use trader_cockpit_app.Js.Thousandths.{thousandths, ℤ, pos}
use trader_cockpit_app.Screener.Rows.{cam_levels, ScreenerRow, decorate_rows}
use trader_cockpit_app.Screener.Filters.{
  keeps, misses_query, out_of_range, outside, outside_known, fails_near, fails_cam, fails_cam_at,
  cam_verdict, fails_flags, Presets, default_range, stage2, cam_h4x, apply_filters,
}
use trader_cockpit_app.Screener.Filters.Laws.{
  Within, IsPlain, more_presets_fewer_rows, inactive_filters_show_all, default_range_inactive,
}
use trader_cockpit_app.Screener.Breadth.{
  AreBreadth, compute_breadth_stats, compute_breadth_stats-AreBreadth,
}

abbrev pub N : Numbers
N = thousandths

abbrev pub raw : String → ℤ → ScreenerRow N
raw symbol price = record {
  symbol = symbol;
  is_fno = none;
  adv_20_cr = some (pos 40000);
  atr_14 = some (pos 12000);
  current_price = some price;
  daily_vwap = some (pos 100000);
  ema_50 = none;
  ema_200 = none;
  week_return_pct = none;
  week_gain_pct = none;
  week_decline_pct = none;
  prev_day_close = some (pos 100000);
  prev_day_high = some (pos 104000);
  prev_day_low = some (pos 98000);
  week52_high = some (pos 120000);
  week52_low = some (pos 80000);
  prev_week_high = none;
  prev_week_low = none;
  prev_month_high = none;
  prev_month_low = none;
  stage = some "STAGE_2";
  rs_vs_nifty = none;
  weekly_bias = none;
  vcp_detected = none;
  vcp_contractions = none;
  rect_breakout = none;
  rect_range_pct = none;
  consolidation_days = none;
  display_price = none;
  f52h = none;
  f52l = none;
  dvwap_delta_pct = none;
  ema50_delta_pct = none;
  ema200_delta_pct = none;
}

abbrev rows : List (ScreenerRow N)
unfolding decorate_rows
rows = decorate_rows N (raw "TCS" (pos 103000) ∷ raw "INFY" (pos 110000) ∷ [])

abbrev none_on : Presets
none_on p = false

abbrev stage_two : Presets
stage_two stage2 = true
stage_two _ = false

abbrev above_h4 : Presets
above_h4 cam_h4x = true
above_h4 _ = false

abbrev both : Presets
both p = stage_two p || above_h4 p

-- Of the two rows at stage 2 one trades above its level H4.
shown_symbols :
    map
      (λ (r : ScreenerRow N). r.symbol)
      (apply_filters N plain_locale rows "" (default_range N) both false empty_object)
    ≡ "INFY" ∷ []
unfolding apply_filters keeps misses_query out_of_range outside outside_known fails_near fails_cam
    fails_cam_at cam_verdict fails_flags cam_levels decorate_rows trim nonzero
shown_symbols = refl

stage_two-Within : Within stage_two both
stage_two-Within p e = ground arith

more_presets_fewer_rows_example :
    IsSublist
      (apply_filters N plain_locale rows "" (default_range N) both false empty_object)
      (apply_filters N plain_locale rows "" (default_range N) stage_two false empty_object)
more_presets_fewer_rows_example =
    more_presets_fewer_rows N stage_two-Within plain_locale rows "" (default_range N) false
      empty_object

rows-IsPlain : All (IsPlain N) rows
unfolding decorate_rows
rows-IsPlain = (
  record { adv = refl; atr = refl; price = refl },
  (record { adv = refl; atr = refl; price = refl }, tt),
)

inactive_filters_show_all_example :
    apply_filters N plain_locale rows "" (default_range N) none_on false empty_object ≡ rows
inactive_filters_show_all_example =
    inactive_filters_show_all N plain_locale rows (default_range N) none_on empty_object
      (default_range_inactive N) (λ p. refl) rows-IsPlain

compute_breadth_stats-AreBreadth_example :
    AreBreadth N (raw "TCS" (pos 103000) ∷ raw "INFY" (pos 110000) ∷ []) (
      compute_breadth_stats N
        (decorate_rows N (raw "TCS" (pos 103000) ∷ raw "INFY" (pos 110000) ∷ [])))
compute_breadth_stats-AreBreadth_example =
    compute_breadth_stats-AreBreadth N (raw "TCS" (pos 103000) ∷ raw "INFY" (pos 110000) ∷ [])
