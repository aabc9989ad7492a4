-- ===== src/Charts/Grouping.antt =====
-- How the weekly and monthly bars of CockpitUI/src/lib/chartUtils.ts group the daily ones, and where
-- the points of an average stand.
use mathlib.Core.List.{Perm}
use Prim.Native.String.{slice, ◌++◌ as ◌+++◌}
use trader_cockpit_app.Prelude.{
  ℕ, ◌-◌, ◌*◌, ◌/◌, ◌≤◌, String, ◌==◌, nat_eq, List, [], ◌∷◌, ◌++◌, ◌≡◌, refl, sym, ap, ◌∙◌, filter,
  length, drop, if_elim, if_true, if_false, if◌then◌else◌, ltb,
}
use trader_cockpit_app.Js.Numbers.{Numbers}
use trader_cockpit_app.Js.Collections.{Distinct}
use trader_cockpit_app.Js.Text.{Locale}
use trader_cockpit_app.Js.Sort.{IsSorted}
use trader_cockpit_app.Charts.{
  ChartBar, Calendar, week_key, candles, before_key, ema_from, ema_rounds, compute_ema, EmaPoint,
}

module _ (N : Numbers) where
  -- The bars that a map keeps under a key.
  pub bars_of : String → List (String × List (ChartBar N)) → List (ChartBar N)
  bars_of k [] = []
  bars_of k ((j, g) ∷ rest) = let others = bars_of k rest in if j == k then g else others

  abbrev pub keys : List (String × List (ChartBar N)) → List String
  keys [] = []
  keys ((k, g) ∷ rest) = k ∷ keys rest

  -- How the bars are grouped before each group becomes one bar.
  pub record IsGrouped (locale : Locale) (key_of : ChartBar N → String) (bars : List (ChartBar N))
      (groups : List (String × List (ChartBar N))) : Type 0 where
    pub unsorted : List (String × List (ChartBar N))
    pub reordered : Perm groups unsorted
    pub ordered : IsSorted (before_key N locale) groups
    pub one_group : Distinct (keys unsorted)
    pub whole : (k : String) → bars_of k unsorted ≡ filter (λ b. key_of b == k) bars

  -- What stands between the daily bars and the resampled ones: the groups, those of a week under the
  -- date of its Monday and those of a month under its year and month.
  pub record IsWeekly (locale : Locale) (calendar : Calendar) (bars resampled : List (ChartBar N))
      : Type 0 where
    pub groups : List (String × List (ChartBar N))
    pub grouped : IsGrouped locale (week_key N calendar) bars groups
    pub whole_week :
        (w : ℕ)
        → bars_of (calendar.date_text (7 * w)) grouped.unsorted
          ≡ filter (λ b. nat_eq (calendar.day_of b.time / 7) w) bars
    pub one_bar_each : resampled ≡ candles N (λ key. key) groups

  pub record IsMonthly (locale : Locale) (bars resampled : List (ChartBar N)) : Type 0 where
    pub groups : List (String × List (ChartBar N))
    pub grouped : IsGrouped locale (λ b. slice b.time 0 7) bars groups
    pub one_bar_each : resampled ≡ candles N (λ key. key +++ "-01") groups

  -- The times of the points.
  abbrev pub times : List (EmaPoint N) → List String
  times [] = []
  times (p ∷ ps) = p.time ∷ times ps

  abbrev pub bar_times : List (ChartBar N) → List String
  bar_times [] = []
  bar_times (b ∷ bs) = b.time ∷ bar_times bs

  times-ema_from :
      (k : N.Number) (bs : List (ChartBar N)) (ema : N.Number)
      → times (ema_from N k ema bs) ≡ bar_times bs
  unfolding ema_from
  times-ema_from k [] ema = refl
  times-ema_from k (b ∷ bs) ema = ap (◌∷◌ b.time) (times-ema_from k bs _)

  times-ema_rounds :
      (k seed : N.Number) (bs : List (ChartBar N)) → times (ema_rounds N k seed bs) ≡ bar_times bs
  unfolding ema_rounds
  times-ema_rounds k seed [] = refl
  times-ema_rounds k seed (b ∷ bs) = ap (◌∷◌ b.time) (times-ema_from k bs seed)

  -- For a period of at least 1 the average has a point for each bar from the last one of its first period on, at that bar's
  -- time, and none where there are fewer bars than the period.
  pub times-compute_ema :
      (bars : List (ChartBar N)) (period : ℕ)
      → 1 ≤ period
      → times (compute_ema N bars period)
        ≡ (if ltb (length bars) period then [] else bar_times (drop (period - 1) bars))
  unfolding compute_ema
  times-compute_ema bars period positive =
      if_elim
        (λ (ps : List (EmaPoint N)).
          times ps ≡ (if ltb (length bars) period then [] else bar_times (drop (period - 1) bars)))
        (ltb (length bars) period) (λ short. sym (if_true _ _ short))
        (λ long. times-ema_rounds _ _ (drop (period - 1) bars) ∙ sym (if_false _ _ long))
