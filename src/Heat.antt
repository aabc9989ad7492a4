-- ===== src/Heat.antt =====
-- The heat map: CockpitUI/src/lib/heatmap.ts.
pub mod Movers
pub mod Cells
pub mod Tile
pub mod Entries
pub mod Stats
mod Tests
use trader_cockpit_app.Prelude.{
  ℕ, ◌+◌, String, Bool, true, false, not, ◌&&◌, Option, none, some, get_or, List, [], ◌∷◌, ◌++◌,
  filter, take, nat_eq, is_some, if◌then◌else◌,
}
use trader_cockpit_app.Js.Numbers.{Numbers, zero_n, abs, differs, is_finite}
use trader_cockpit_app.Js.Text.{Locale}
use trader_cockpit_app.Js.Sort.{sort}

pub data HeatTone : Type 0 where
  bull bear flat empty : HeatTone

abbrev pub heatmap_top_per_side : ℕ
heatmap_top_per_side = 25

module _ (N : Numbers) where
  open N use {Number, lit, neg, add, sub, div, lt, le}

  pub record HeatMapEntry : Type 0 where
    pub symbol : String
    pub adv : Number
    pub chg_pct : Option Number
    pub price : Option Number
    pub score : Option Number
    pub stage : Option String
    pub signal : Option String

  abbrev pub heatmap_min_adv_cr : Number
  heatmap_min_adv_cr = lit 20 1

  unfoldable pub heat_chg_color : Option Number → String
  heat_chg_color none = "rgb(var(--lift))"
  heat_chg_color (some pct) =
      if lt (lit 5 1) pct
      then "#00a972"
      else if lt (lit 3 1) pct
      then "#078d67"
      else if lt (lit 15 10) pct
      then "#16775f"
      else if lt (lit 5 10) pct
      then "#2f665a"
      else if lt (neg (lit 5 10)) pct
      then "#879295"
      else if lt (neg (lit 15 10)) pct
      then "#8b5d66"
      else if lt (neg (lit 3 1)) pct
      then "#a84d5d"
      else if lt (neg (lit 5 1)) pct
      then "#bf4055"
      else "#d73751"

  unfoldable pub heat_text_color : Option Number → String
  heat_text_color none = "rgb(var(--fg))"
  heat_text_color (some pct) = if lt (abs N pct) (lit 5 10) then "rgb(var(--fg))" else "#ffffff"

  unfoldable pub heat_tone : Option Number → HeatTone
  heat_tone none = empty
  heat_tone (some pct) =
      if lt (lit 5 10) pct then bull else if lt pct (neg (lit 5 10)) then bear else flat

  -- `chgPct ?? 0`.
  abbrev pub move_of : HeatMapEntry → Number
  move_of e = get_or e.chg_pct (zero_n N)

  -- The comparators, by the sign of their answer.
  unfoldable pub before_by_size : Locale → HeatMapEntry → HeatMapEntry → Bool
  before_by_size locale a b =
      let move = sub (abs N (move_of b)) (abs N (move_of a)) in
      if differs N move (zero_n N) then lt move (zero_n N) else locale.before a.symbol b.symbol

  abbrev pub before_gainer : HeatMapEntry → HeatMapEntry → Bool
  before_gainer a b = lt (sub (move_of b) (move_of a)) (zero_n N)

  abbrev pub before_loser : HeatMapEntry → HeatMapEntry → Bool
  before_loser a b = lt (sub (move_of a) (move_of b)) (zero_n N)

  -- `chgPct != null && Number.isFinite(chgPct)`.
  abbrev pub finite_move : Option Number → Bool
  finite_move none = false
  finite_move (some pct) = is_finite N pct

  abbrev pub is_liquid : Number → HeatMapEntry → Bool
  is_liquid min_adv e = finite_move e.chg_pct && le min_adv e.adv

  abbrev pub is_gainer : HeatMapEntry → Bool
  is_gainer e = lt (zero_n N) (move_of e)

  abbrev pub is_loser : HeatMapEntry → Bool
  is_loser e = lt (move_of e) (zero_n N)

  -- The liquid gainers and losers, ranked, before either list is cut.
  unfoldable pub ranked_gainers : List HeatMapEntry → Number → List HeatMapEntry
  ranked_gainers entries min_adv =
      sort before_gainer (filter is_gainer (filter (is_liquid min_adv) entries))

  unfoldable pub ranked_losers : List HeatMapEntry → Number → List HeatMapEntry
  ranked_losers entries min_adv =
      sort before_loser (filter is_loser (filter (is_liquid min_adv) entries))

  unfoldable pub top_liquid_movers : Locale → List HeatMapEntry → ℕ → Number → List HeatMapEntry
  top_liquid_movers locale entries per_side min_adv = sort (before_by_size locale) (
      take per_side (ranked_gainers entries min_adv)
      ++ take per_side (ranked_losers entries min_adv))

  pub record HeatStats : Type 0 where
    pub gainers : ℕ
    pub losers : ℕ
    pub flat : ℕ
    pub avg_move : Option Number

  -- The variables of the loop of `heatStats`.
  pub record Tally : Type 0 where
    pub gainers : ℕ
    pub losers : ℕ
    pub flat : ℕ
    pub total_move : Number
    pub move_count : ℕ

  -- One round of the loop for an entry with a move.
  abbrev pub count_move : Number → Tally → Tally
  count_move pct t =
      let u =
        if lt (lit 5 10) pct
        then record t { gainers = t.gainers + 1 }
        else if lt pct (neg (lit 5 10))
        then record t { losers = t.losers + 1 }
        else record t { flat = t.flat + 1 } in
      record u { total_move = add u.total_move pct; move_count = u.move_count + 1 }

  -- `if (entry.chgPct == null) continue;`
  abbrev pub count_entry : Option Number → Tally → Tally
  count_entry none t = t
  count_entry (some pct) t = count_move pct t

  unfoldable pub tally : List HeatMapEntry → Tally → Tally
  tally [] t = t
  tally (e ∷ es) t = tally es (count_entry e.chg_pct t)

  unfoldable pub heat_stats : List HeatMapEntry → HeatStats
  unfolding tally
  heat_stats entries =
      let t =
        tally entries
          (record { gainers = 0; losers = 0; flat = 0; total_move = zero_n N; move_count = 0 }) in
      record {
        gainers = t.gainers;
        losers = t.losers;
        flat = t.flat;
        avg_move =
            if nat_eq t.move_count 0 then none else some (div t.total_move (lit t.move_count 1));
      }

  -- The width and height of a tile; the turnover is not used.
  unfoldable pub heat_size : Number → Option Number → ℕ × ℕ
  heat_size adv chg_pct =
      let move = abs N (get_or chg_pct (zero_n N)) in
      let mag = if lt (lit 8 1) move then lit 8 1 else move in
      (
        if lt (lit 5 1) mag
            then 150
            else if lt (lit 3 1) mag
            then 126
            else if lt (lit 15 10) mag
            then 104
            else if lt (lit 5 10) mag
            then 82
            else 60,
        if lt (lit 5 1) mag
            then 94
            else if lt (lit 3 1) mag
            then 84
            else if lt (lit 15 10) mag
            then 70
            else if lt (lit 5 10) mag
            then 60
            else 52,
      )
