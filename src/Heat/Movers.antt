-- ===== src/Heat/Movers.antt =====
-- `topLiquidMovers` of CockpitUI/src/lib/heatmap.ts.
use mathlib.Core.List.{Perm}
use trader_cockpit_app.Prelude.{
  ℕ, ◌+◌, ◌≤◌, ◌≡◌, sym, ◌∙◌, Bool, true, false, Option, none, some, get_or, List, ◌++◌, arith,
  length, take, drop, filter, All, All-filter, All-take, All-drop, All-sublist, All-map_with,
  IsSublist-filter, length-append, length-take,
}
use trader_cockpit_app.Js.Numbers.{Numbers, zero_n, is_finite}
use trader_cockpit_app.Js.Text.{Locale}
use trader_cockpit_app.Js.Sort.{
  sort, sort-perm, sort-IsSorted, All-sort, length-sort, IsSorted, IsSorted-take, IsWeakOrder,
}
use trader_cockpit_app.Js.Order.{IsFinite, sub_lt-IsWeakOrder}
use trader_cockpit_app.Heat.{
  HeatMapEntry, move_of, before_by_size, before_gainer, before_loser, finite_move, is_liquid,
  is_gainer, is_loser, ranked_gainers, ranked_losers, top_liquid_movers,
}

module _ (N : Numbers) where
  open N use {Number, lt, le}

  abbrev FiniteMove : HeatMapEntry N → Type 0
  FiniteMove e = IsFinite N (move_of N e)

  IsFinite-of_test : (o : Option Number) → finite_move N o ≡ true → IsFinite N (get_or o (zero_n N))
  unfolding is_finite
  IsFinite-of_test none e = cc
  IsFinite-of_test (some a) e = (ground arith, ground arith, ground arith)

  before_gainer-lt :
      (a b : HeatMapEntry N)
      → FiniteMove a
      → FiniteMove b
      → before_gainer N a b ≡ lt (move_of N b) (move_of N a)
  before_gainer-lt a b p q = N.lt_sub (move_of N b) (move_of N a) q p

  before_loser-lt :
      (a b : HeatMapEntry N)
      → FiniteMove a
      → FiniteMove b
      → before_loser N a b ≡ lt (move_of N a) (move_of N b)
  before_loser-lt a b p q = N.lt_sub (move_of N a) (move_of N b) p q

  gainer-IsWeakOrder : IsWeakOrder FiniteMove (before_gainer N)
  gainer-IsWeakOrder =
      let w = sub_lt-IsWeakOrder N in
      record {
        asym = λ a b p q h. w.asym (move_of N b) (move_of N a) q p h;
        trans = λ a b c p q r h k. w.trans (move_of N c) (move_of N b) (move_of N a) r q p k h;
      }

  loser-IsWeakOrder : IsWeakOrder FiniteMove (before_loser N)
  loser-IsWeakOrder =
      let w = sub_lt-IsWeakOrder N in
      record {
        asym = λ a b p q h. w.asym (move_of N a) (move_of N b) p q h;
        trans = λ a b c p q r h k. w.trans (move_of N a) (move_of N b) (move_of N c) p q r h k;
      }

  liquid-FiniteMove :
      (min_adv : Number) (e : HeatMapEntry N) → is_liquid N min_adv e ≡ true → FiniteMove e
  liquid-FiniteMove min_adv e h = IsFinite-of_test e.chg_pct (ground arith)

  -- What is ranked has a finite move.
  liquid_rows-FiniteMove :
      (side : HeatMapEntry N → Bool) (es : List (HeatMapEntry N)) (min_adv : Number)
      → All FiniteMove (filter side (filter (is_liquid N min_adv) es))
  liquid_rows-FiniteMove side es min_adv =
      All-sublist FiniteMove (IsSublist-filter side (filter (is_liquid N min_adv) es))
        (All-filter FiniteMove (is_liquid N min_adv) es (liquid-FiniteMove min_adv))

  -- Of a ranking cut after `n`, nothing left out moved beyond anything shown.
  abbrev pub LeavesOut : (Number → Number → Bool) → ℕ → List (HeatMapEntry N) → Type 0
  LeavesOut beyond n ranked =
      All
        (λ (k : HeatMapEntry N).
          All (λ (d : HeatMapEntry N). beyond (move_of N d) (move_of N k) ≡ false) (drop n ranked))
        (take n ranked)

  sorted-LeavesOut :
      (before : HeatMapEntry N → HeatMapEntry N → Bool)
      → (beyond : Number → Number → Bool)
      → ((d k : HeatMapEntry N)
          → FiniteMove d
          → FiniteMove k
          → before d k ≡ beyond (move_of N d) (move_of N k))
      → (n : ℕ) (ranked : List (HeatMapEntry N)) → All FiniteMove ranked
      → IsSorted before ranked
      → LeavesOut beyond n ranked
  sorted-LeavesOut before beyond same n ranked fin s =
      All-map_with
        (λ k pk h.
          All-map_with (λ d pd e. sym (same d k pd pk) ∙ e) (drop n ranked)
            (All-drop FiniteMove n ranked fin) h)
        (take n ranked) (All-take FiniteMove n ranked fin) (IsSorted-take before n ranked s)

  -- What the heat map shows of the entries.
  pub record TopMovers (entries : List (HeatMapEntry N)) (n : ℕ) (min_adv : Number)
      (shown : List (HeatMapEntry N)) : Type 0 where
    pub two_sides :
        Perm shown
          (take n (ranked_gainers N entries min_adv) ++ take n (ranked_losers N entries min_adv))
    pub best_gainers : LeavesOut (λ d k. lt k d) n (ranked_gainers N entries min_adv)
    pub worst_losers : LeavesOut lt n (ranked_losers N entries min_adv)
    pub all_gainers :
        Perm
          (ranked_gainers N entries min_adv)
          (filter (is_gainer N) (filter (is_liquid N min_adv) entries))
    pub all_losers :
        Perm
          (ranked_losers N entries min_adv)
          (filter (is_loser N) (filter (is_liquid N min_adv) entries))
    pub bounded : length shown ≤ n + n

  -- The heat map shows at most `n` of the ranked gainers and `n` of the ranked losers, each once.
  -- The ranked ones are the liquid entries with a positive (negative) move, each once, and no
  -- gainer (loser) left out has moved further up (down) than one that is shown.
  pub top_liquid_movers-TopMovers :
      (locale : Locale) (entries : List (HeatMapEntry N)) (n : ℕ) (min_adv : Number)
      → TopMovers entries n min_adv (top_liquid_movers N locale entries n min_adv)
  unfolding top_liquid_movers ranked_gainers ranked_losers
  top_liquid_movers-TopMovers locale entries n min_adv =
      let liquid = filter (is_liquid N min_adv) entries in
      let gainers = filter (is_gainer N) liquid in
      let losers = filter (is_loser N) liquid in
      let up = liquid_rows-FiniteMove (is_gainer N) entries min_adv in
      let down = liquid_rows-FiniteMove (is_loser N) entries min_adv in
      let both = take n (sort (before_gainer N) gainers) ++ take n (sort (before_loser N) losers) in
      record {
        two_sides = sort-perm (before_by_size N locale) both;
        best_gainers =
            sorted-LeavesOut (before_gainer N) (λ d k. lt k d) before_gainer-lt n
              (sort (before_gainer N) gainers) (All-sort FiniteMove (before_gainer N) gainers up)
              (sort-IsSorted gainer-IsWeakOrder gainers up);
        worst_losers =
            sorted-LeavesOut (before_loser N) lt before_loser-lt n (sort (before_loser N) losers)
              (All-sort FiniteMove (before_loser N) losers down)
              (sort-IsSorted loser-IsWeakOrder losers down);
        all_gainers = sort-perm (before_gainer N) gainers;
        all_losers = sort-perm (before_loser N) losers;
        bounded = omega (
          arith,
          length-sort (before_by_size N locale) both,
          length-append (take n (sort (before_gainer N) gainers))
              (take n (sort (before_loser N) losers)),
          length-take n (sort (before_gainer N) gainers),
          length-take n (sort (before_loser N) losers),
        );
      }
