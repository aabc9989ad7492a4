-- ===== src/Accounts/Summary.antt =====
-- The summaries of an account: CapitalSummary.tsx, PerformanceStats.tsx, PositionsTable.tsx,
-- HoldingsTable.tsx and TradesTable.tsx of CockpitUI/src/components/accounts.
use Prim.Native.String.{◌++◌ as ◌+++◌}
use trader_cockpit_app.Prelude.{
  String, Bool, true, false, ◌&&◌, some, List, [], ◌∷◌, ◌++◌, map, if◌then◌else◌,
}
use trader_cockpit_app.Js.Numbers.{Numbers, zero_n, abs, differs}
use trader_cockpit_app.Js.Format.{Format, Dates}
use trader_cockpit_app.Charts.{max_n}
use trader_cockpit_app.Display.Accounts.{money, tone}
use trader_cockpit_app.Accounts.{DashboardAccount, PositionRow, HoldingRow, TradeRow}
use trader_cockpit_app.Accounts.Edge.{Tile}
use trader_cockpit_app.Accounts.Views.{bar_width, hold}

module _ (N : Numbers) where
  open N use {Number, lit, mul, div, lt, le}

  -- A row of the breakdown: its value, the width of its bar and the classes of both.
  pub record CapitalRow : Type 0 where
    pub label : String
    pub value : Number
    pub width : Number
    pub bar_class : String
    pub value_class : String

  -- `signed && value !== 0 ? value >= 0 ? 'text-bull' : 'text-bear' : 'text-fg'`.
  abbrev pub value_class_of : Bool → Number → String
  value_class_of signed value =
      if signed && differs N value (zero_n N)
      then if le (zero_n N) value then "text-bull" else "text-bear"
      else "text-fg"

  abbrev pub capital_row : String → Number → Number → String → Bool → CapitalRow
  capital_row label value pct bar_class signed = record {
    label = label;
    value = value;
    width = bar_width N pct;
    bar_class = bar_class;
    value_class = value_class_of signed value;
  }

  abbrev pub bull_or_bear : Number → String → String → String
  bull_or_bear value bull bear = if le (zero_n N) value then bull else bear

  unfoldable pub capital_rows : DashboardAccount N → List CapitalRow
  capital_rows a =
      let cap = max_n N (lit 1 1) a.strategy_capital in
      let share : Number → Number = λ v. mul (div v cap) (lit 100 1) in
      capital_row "Strategy Capital" a.strategy_capital (lit 100 1) "bg-dim/30" false
      ∷ capital_row "Broker Net Value" a.broker_net (share a.broker_net) "bg-accent/60" false
      ∷ capital_row "Open Exposure" a.open_exposure a.utilization_pct "bg-violet/55" false
      ∷ capital_row "Cash Available" a.cash (share a.cash) "bg-sky/55" false
      ∷ capital_row "Realized P&L" a.realized_pnl (share (abs N a.realized_pnl))
          (bull_or_bear a.realized_pnl "bg-bull/65" "bg-bear/65") true
      ∷ capital_row "Net Realized" a.realized_after_charges (share (abs N a.realized_after_charges))
          (bull_or_bear a.realized_after_charges "bg-bull/65" "bg-bear/65") true
      ∷ capital_row "Unrealized P&L" a.unrealized_pnl (share (abs N a.unrealized_pnl))
          (bull_or_bear a.unrealized_pnl "bg-bull/40" "bg-bear/40") true
      ∷ capital_row "Holdings Value" a.holdings_value (share a.holdings_value) "bg-amber/45" false
      ∷ []

  -- `{ ...p, account_id: a.account_id }`.
  pub record OfAccount {ℓ} (A : Type ℓ) : Type ℓ where
    pub account_id : String
    pub row : A

  abbrev pub tagged {ℓ} : {A : Type ℓ} → String → A → OfAccount A
  tagged id row = record { account_id = id; row = row }

  unfoldable pub positions_of : List (DashboardAccount N) → List (OfAccount (PositionRow N))
  positions_of [] = []
  positions_of (a ∷ accounts) = map (tagged a.account_id) a.open_positions ++ positions_of accounts

  unfoldable pub holdings_of : List (DashboardAccount N) → List (OfAccount (HoldingRow N))
  holdings_of [] = []
  holdings_of (a ∷ accounts) = map (tagged a.account_id) a.holdings ++ holdings_of accounts

module _ {N : Numbers} (F : Format N) where
  open N use {Number, lit, lt, le}

  abbrev pub cell : String → String → String → Tile
  cell label value color = record { label = label; value = value; color = color }

  unfoldable pub performance_cells : DashboardAccount N → List Tile
  performance_cells a =
      cell "Avg Trades / Day" (F.shown a.avg_trades_per_day) "text-fg"
      ∷ cell "Winning Days"
          (F.shown a.winning_days +++ (" @ " +++ (F.shown a.avg_trades_on_winning_days +++ "/day")))
          "text-bull"
      ∷ cell "Losing Days"
          (F.shown a.losing_days +++ (" @ " +++ (F.shown a.avg_trades_on_losing_days +++ "/day")))
          "text-bear"
      ∷ cell "Expectancy / Trade" (money F (some a.trade_expectancy)) (tone F a.trade_expectancy)
      ∷ cell "Profit Factor" (F.shown a.profit_factor)
          (if le (lit 1 1) a.profit_factor then "text-bull" else "text-bear")
      ∷ cell "Worst Peak"
          (money F (some a.loss_peak_pnl)
            +++ (" after " +++ (F.shown a.loss_peak_after_trades +++ " trades")))
          "text-bear"
      ∷ cell "Best Peak"
          (money F (some a.win_peak_pnl)
            +++ (" after " +++ (F.shown a.win_peak_after_days +++ " days")))
          "text-bull"
      ∷ cell "Net Realized" (money F (some a.realized_after_charges))
          (tone F a.realized_after_charges)
      ∷ []

  -- A loss closed within half an hour.
  unfoldable pub fast_stop : Dates N → TradeRow N → Bool
  fast_stop D t = let h = hold F D t in lt t.pnl (zero_n N) && lt (zero_n N) h && lt h (lit 30 1)
