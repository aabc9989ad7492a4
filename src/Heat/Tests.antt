-- ===== src/Heat/Tests.antt =====
-- Runs of the heat map on concrete entries, and the theorems at inputs that meet their conditions.
use trader_cockpit_app.Prelude.{◌+◌, String, Option, none, some, List, [], ◌∷◌, ◌≡◌, ◌↔◌, refl, map}
use trader_cockpit_app.Js.Numbers.{Numbers, abs, is_finite}
use trader_cockpit_app.Js.Sort.{sort}
use trader_cockpit_app.Js.PlainLocale.{plain_locale}
use trader_cockpit_app.Js.Thousandths.{thousandths, ℤ, pos, negsuc}
use trader_cockpit_app.Heat.{
  HeatMapEntry, bull, bear, flat, top_liquid_movers, ranked_gainers, ranked_losers, before_by_size,
  heat_stats, heatmap_min_adv_cr,
}
use trader_cockpit_app.Heat.Movers.{TopMovers, top_liquid_movers-TopMovers}
use trader_cockpit_app.Heat.Stats.{count_tone, heat_stats_tones}

abbrev N : Numbers
N = thousandths

abbrev mover : String → Option ℤ → HeatMapEntry N
mover symbol chg = record {
  symbol = symbol;
  adv = pos 50000;
  chg_pct = chg;
  price = none;
  score = none;
  stage = none;
  signal = none;
}

abbrev board : List (HeatMapEntry N)
board =
    mover "TCS" (some (pos 1000))
    ∷ mover "INFY" (some (negsuc 2999))
    ∷ mover "ACC" none
    ∷ mover "SBIN" (some (pos 2000))
    ∷ []

abbrev names : List (HeatMapEntry N) → List String
names = map (λ (e : HeatMapEntry N). e.symbol)

-- With one place per side: the largest fall, then the largest rise.
top_names :
    names (top_liquid_movers N plain_locale board 1 (heatmap_min_adv_cr N)) ≡ "INFY" ∷ "SBIN" ∷ []
unfolding top_liquid_movers ranked_gainers ranked_losers before_by_size is_finite sort abs
top_names = refl

top_liquid_movers-TopMovers_example :
    TopMovers N board 1
      (heatmap_min_adv_cr N)
      (top_liquid_movers N plain_locale board 1 (heatmap_min_adv_cr N))
top_liquid_movers-TopMovers_example =
    top_liquid_movers-TopMovers N plain_locale board 1 (heatmap_min_adv_cr N)

heat_stats_tones_example :
    let s = heat_stats N board in
    (s.gainers ≡ count_tone N bull board)
    × (s.losers ≡ count_tone N bear board)
    × (s.flat ≡ count_tone N flat board)
    × ((s.avg_move ≡ none)
        ↔ (count_tone N bull board + count_tone N bear board + count_tone N flat board ≡ 0))
heat_stats_tones_example = heat_stats_tones N board
