-- ===== src/Accounts/Edge.antt =====
-- The figures that the accounts screen derives of trades: TradeEdge.tsx, SymbolPnL.tsx,
-- PnLCurve.tsx, TradeBars.tsx, BehaviorPanel.tsx, ActivityBars.tsx, CapitalSummary.tsx and
-- AccountLoginLink.tsx of CockpitUI/src/components/accounts.
use Prim.Native.String.{slice}
use trader_cockpit_app.Prelude.{
  ℕ, ◌+◌, ◌-◌, String, ◌==◌, Bool, true, false, not, Option, none, some, get_or, List, [], ◌∷◌,
  filter, map, length, take, drop, truthy, if◌then◌else◌,
}
use trader_cockpit_app.Js.Numbers.{Numbers, zero_n, abs}
use trader_cockpit_app.Js.Text.{Locale}
use trader_cockpit_app.Js.Sort.{sort}
use trader_cockpit_app.Js.Order.{sub_lt}
use trader_cockpit_app.Charts.{max_n}
use trader_cockpit_app.Accounts.{ZerodhaAccountStatus, AccountStatus, connected, TradeRow, DailyRow}

pub record Tile : Type 0 where
  pub label : String
  pub value : String
  pub color : String

module _ (N : Numbers) where
  open N use {Number, lit, add, sub, mul, div, lt, le, eq}

  -- `trades.reduce((s, t) => s + t.pnl, s)`.
  unfoldable pub sum_pnl : Number → List (TradeRow N) → Number
  sum_pnl s [] = s
  sum_pnl s (t ∷ ts) = sum_pnl (add s t.pnl) ts

  abbrev pub wins : List (TradeRow N) → List (TradeRow N)
  wins trades = filter (λ t. lt (zero_n N) t.pnl) trades

  abbrev pub losses : List (TradeRow N) → List (TradeRow N)
  losses trades = filter (λ t. lt t.pnl (zero_n N)) trades

  abbrev pub count_n {ℓ} : {A : Type ℓ} → List A → Number
  count_n xs = lit (length xs) 1

  unfoldable pub profit_factor : List (TradeRow N) → Number
  profit_factor trades =
      let gross_win = sum_pnl (zero_n N) (wins trades) in
      let gross_loss = abs N (sum_pnl (zero_n N) (losses trades)) in
      if lt (zero_n N) gross_loss
      then div gross_win gross_loss
      else if lt (zero_n N) gross_win
      then lit 99 1
      else zero_n N

  -- A mean of a sum, 0 of nothing.
  abbrev pub mean_of {ℓ} : {A : Type ℓ} → (Number → List A → Number) → List A → Number
  mean_of sum [] = zero_n N
  mean_of sum (x ∷ xs) = div (sum (zero_n N) (x ∷ xs)) (count_n (x ∷ xs))

  unfoldable pub pf_color : Number → String
  pf_color pf =
      if le (lit 15 10) pf
      then "text-bull"
      else if le (lit 1 1) pf
      then "text-amber"
      else "text-bear"

  -- The points of the cumulative curve.
  pub record CurvePoint : Type 0 where
    pub trade : TradeRow N
    pub running : Number

  unfoldable pub curve_from : Number → List (TradeRow N) → List CurvePoint
  curve_from running [] = []
  curve_from running (t ∷ ts) =
      let next = add running t.pnl in record { trade = t; running = next } ∷ curve_from next ts

  abbrev pub before_exit : Locale → TradeRow N → TradeRow N → Bool
  before_exit locale a b = locale.before (get_or a.exit_time "") (get_or b.exit_time "")

  unfoldable pub curve_points : Locale → List (TradeRow N) → List CurvePoint
  curve_points locale trades = curve_from (zero_n N) (sort (before_exit locale) trades)

  unfoldable pub curve_total : List CurvePoint → Number
  curve_total [] = zero_n N
  curve_total (p ∷ []) = p.running
  curve_total (p ∷ q ∷ ps) = curve_total (q ∷ ps)

  abbrev pub max_bars : ℕ
  max_bars = 180

  -- `slice(-n)`.
  abbrev pub last_n {ℓ} : {A : Type ℓ} → ℕ → List A → List A
  last_n n xs = drop (length xs - n) xs

  unfoldable pub bar_trades : Locale → List (TradeRow N) → List (TradeRow N)
  bar_trades locale trades = last_n max_bars (sort (before_exit locale) trades)

  -- The first of the sorted trades.
  abbrev pub first_trade : List (TradeRow N) → Option (TradeRow N)
  first_trade [] = none
  first_trade (t ∷ ts) = some t

  unfoldable pub best_trade : List (TradeRow N) → Option (TradeRow N)
  best_trade trades = first_trade (sort (λ a b. sub_lt N b.pnl a.pnl) trades)

  unfoldable pub worst_trade : List (TradeRow N) → Option (TradeRow N)
  worst_trade trades = first_trade (sort (λ a b. sub_lt N a.pnl b.pnl) trades)

  -- The figures of a symbol.
  pub record Stat : Type 0 where
    pub wins : ℕ
    pub losses : ℕ
    pub pnl : Number
    pub count : ℕ

  abbrev pub no_stat : Stat
  no_stat = record { wins = 0; losses = 0; pnl = zero_n N; count = 0 }

  abbrev pub one_when : Bool → ℕ
  one_when b = if b then 1 else 0

  abbrev pub count_trade : TradeRow N → Stat → Stat
  count_trade t s = record {
    wins = s.wins + one_when (lt (zero_n N) t.pnl);
    losses = s.losses + one_when (lt t.pnl (zero_n N));
    pnl = add s.pnl t.pnl;
    count = s.count + 1;
  }

  -- A `Map` keeps its keys in the order of their first use.
  unfoldable pub put_trade : TradeRow N → List (String × Stat) → List (String × Stat)
  put_trade t [] = (t.symbol, count_trade t no_stat) ∷ []
  put_trade t ((symbol, s) ∷ rest) =
      let others = put_trade t rest in
      if symbol == t.symbol then (symbol, count_trade t s) ∷ rest else (symbol, s) ∷ others

  unfoldable pub put_trades : List (TradeRow N) → List (String × Stat) → List (String × Stat)
  put_trades [] stats = stats
  put_trades (t ∷ ts) stats = put_trades ts (put_trade t stats)

  abbrev pub before_stat : String × Stat → String × Stat → Bool
  before_stat a b = sub_lt N (abs N b.1.pnl) (abs N a.1.pnl)

  unfoldable pub symbol_rows : List (TradeRow N) → List (String × Stat)
  symbol_rows trades = take 8 (sort before_stat (put_trades trades []))

  -- `Math.max(1, ...)`.
  unfoldable pub max_abs : List (String × Stat) → Number
  max_abs [] = lit 1 1
  max_abs (r ∷ rs) = max_n N (abs N r.1.pnl) (max_abs rs)

  -- The last 28 days, and what their header counts.
  pub record ActivityTotals : Type 0 where
    pub trades : Number
    pub wins : Number
    pub losses : Number
    pub executions : Number

  abbrev pub activity_rows : List (DailyRow N) → List (DailyRow N)
  activity_rows daily = last_n 28 daily

  unfoldable pub activity_totals : ActivityTotals → List (DailyRow N) → ActivityTotals
  activity_totals acc [] = acc
  activity_totals acc (row ∷ rows) =
      activity_totals
        (record {
          trades = add acc.trades (get_or row.trades (zero_n N));
          wins = add acc.wins (get_or row.wins (zero_n N));
          losses = add acc.losses (get_or row.losses (zero_n N));
          executions = add acc.executions row.executions;
        })
        rows

  unfoldable pub max_trades : List (DailyRow N) → Number
  max_trades [] = lit 1 1
  max_trades (row ∷ rows) = max_n N (get_or row.trades (zero_n N)) (max_trades rows)

  -- The data of the three lines.
  pub record ActivityLines : Type 0 where
    pub days : List String
    pub trades : List Number
    pub win_pct : List Number
    pub loss_pct : List Number

  unfoldable pub activity_lines : List (DailyRow N) → Number → ActivityLines
  activity_lines rows peak = record {
    days = map (λ row. slice row.date 8 10) rows;
    trades = map (λ row. mul (div (get_or row.trades (zero_n N)) peak) (lit 100 1)) rows;
    win_pct = map (λ row. get_or row.win_pct (zero_n N)) rows;
    loss_pct = map (λ row. get_or row.loss_pct (zero_n N)) rows;
  }

  abbrev pub is_connected : AccountStatus → Bool
  is_connected connected = true
  is_connected _ = false

  unfoldable pub needs_login : Option (ZerodhaAccountStatus N) → Bool
  needs_login none = false
  needs_login (some account) =
      if truthy account.has_credentials then not (is_connected account.status) else false
