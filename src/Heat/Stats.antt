-- ===== src/Heat/Stats.antt =====
-- `heatStats` of CockpitUI/src/lib/heatmap.ts against `heatTone`.
use trader_cockpit_app.Prelude.{ℕ, ◌+◌, ◌≡◌, ◌↔◌, Option, none, some, List, [], ◌∷◌, arith}
use trader_cockpit_app.Js.Numbers.{Numbers, zero_n}
use trader_cockpit_app.Heat.{
  HeatTone, bull, bear, flat, empty, HeatMapEntry, heat_tone, Tally, count_entry, tally, heat_stats,
}

-- 1 for the tone asked for, and 0 for the others.
abbrev pub one_if : HeatTone → HeatTone → ℕ
one_if bull bull = 1
one_if bear bear = 1
one_if flat flat = 1
one_if empty empty = 1
one_if _ _ = 0

module _ (N : Numbers) where
  -- How many entries have a tone.
  pub count_tone : HeatTone → List (HeatMapEntry N) → ℕ
  count_tone t [] = 0
  count_tone t (e ∷ es) = one_if t (heat_tone N e.chg_pct) + count_tone t es

  record Counts (t u : Tally N) (es : List (HeatMapEntry N)) : Type 0 where
    gainers : u.gainers ≡ t.gainers + count_tone bull es
    losers : u.losers ≡ t.losers + count_tone bear es
    flat_ones : u.flat ≡ t.flat + count_tone flat es
    moves :
        u.move_count ≡ t.move_count + count_tone bull es + count_tone bear es + count_tone flat es

  record Round (t u : Tally N) (o : Option (N.Number)) : Type 0 where
    gainers : u.gainers ≡ t.gainers + one_if bull (heat_tone N o)
    losers : u.losers ≡ t.losers + one_if bear (heat_tone N o)
    flat_ones : u.flat ≡ t.flat + one_if flat (heat_tone N o)
    moves :
        u.move_count
        ≡ t.move_count
          + one_if bull (heat_tone N o)
          + one_if bear (heat_tone N o)
          + one_if flat (heat_tone N o)

  count_entry-Round : (o : Option (N.Number)) (t : Tally N) → Round t (count_entry N o t) o
  unfolding heat_tone
  count_entry-Round none t = record {
    gainers = omega arith;
    losers = omega arith;
    flat_ones = omega arith;
    moves = omega arith;
  }
  count_entry-Round (some pct) t = record {
    gainers = ground arith;
    losers = ground arith;
    flat_ones = ground arith;
    moves = ground arith;
  }

  tally-Counts : (es : List (HeatMapEntry N)) (t : Tally N) → Counts t (tally N es t) es
  unfolding tally count_tone
  tally-Counts [] t = record {
    gainers = omega arith;
    losers = omega arith;
    flat_ones = omega arith;
    moves = omega arith;
  }
  tally-Counts (e ∷ es) t =
      let r = count_entry-Round e.chg_pct t in
      let c = tally-Counts es (count_entry N e.chg_pct t) in
      record {
        gainers = omega (arith, c.gainers, r.gainers);
        losers = omega (arith, c.losers, r.losers);
        flat_ones = omega (arith, c.flat_ones, r.flat_ones);
        moves = omega (arith, c.moves, r.moves);
      }

  -- The counts of the header are the numbers of entries of the tones bull, bear and flat, and there
  -- is no average exactly when every entry is of the tone empty.
  pub heat_stats_tones :
      (es : List (HeatMapEntry N))
      → let s = heat_stats N es in
        (s.gainers ≡ count_tone bull es)
        × (s.losers ≡ count_tone bear es)
        × (s.flat ≡ count_tone flat es)
        × ((s.avg_move ≡ none) ↔ (count_tone bull es + count_tone bear es + count_tone flat es ≡ 0))
  unfolding heat_stats
  heat_stats_tones es =
      let c =
        tally-Counts es
          (record { gainers = 0; losers = 0; flat = 0; total_move = zero_n N; move_count = 0 }) in
      (
        omega (arith, c.gainers),
        omega (arith, c.losers),
        omega (arith, c.flat_ones),
        ((λ h. ground (arith, c.moves)), (λ h. ground (arith, c.moves))),
      )
