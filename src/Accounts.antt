-- ===== src/Accounts.antt =====
-- The accounts screen: CockpitUI/src/components/accounts. The types are those of accountTypes.ts and
-- of ZerodhaAccountStatus in CockpitUI/src/components/admin/adminTypes.ts.
pub mod Hook
pub mod Edge
pub mod Views
pub mod Summary
pub mod Forms
mod Tests
use trader_cockpit_app.Prelude.{String, Bool, Option, List}
use trader_cockpit_app.Js.Numbers.{Numbers}

pub data AccountStatus : Type 0 where
  connected expired not_connected login_required error : AccountStatus

-- The fields are texts, also the capital.
pub record AccountForm : Type 0 where
  pub account_id : String
  pub client_id : String
  pub display_name : String
  pub api_key : String
  pub api_secret : String
  pub strategy_capital : String

abbrev pub empty_form : AccountForm
empty_form = record {
  account_id = "";
  client_id = "";
  display_name = "";
  api_key = "";
  api_secret = "";
  strategy_capital = "";
}

module _ (N : Numbers) where
  open N use {Number}

  pub record ZerodhaAccountStatus : Type 0 where
    pub account_id : String
    pub client_id : String
    pub display_name : Option String
    pub broker : String
    pub login_url : String
    pub status : AccountStatus
    pub strategy_capital : Option Number
    pub has_credentials : Option Bool
    pub login_time : Option String
    pub expires_at : Option String
    pub last_error : Option String

  pub record PositionRow : Type 0 where
    pub symbol : String
    pub quantity : Number
    pub average_price : Number
    pub last_price : Number
    pub pnl : Number
    pub unrealised : Number
    pub product : String
    pub exchange : String

  pub record HoldingRow : Type 0 where
    pub symbol : String
    pub quantity : Number
    pub average_price : Number
    pub last_price : Number
    pub pnl : Number
    pub product : String
    pub exchange : String

  pub record TradeRow : Type 0 where
    pub account_id : String
    pub symbol : String
    pub side : String
    pub quantity : Number
    pub entry_time : Option String
    pub exit_time : Option String
    pub entry_price : Number
    pub exit_price : Number
    pub pnl : Number
    pub return_pct : Number
    pub result : Option String
    pub rr_note : Option String

  pub record DayOutcome : Type 0 where
    pub date : String
    pub pnl : Number
    pub trades : Number

  pub record LatestSync : Type 0 where
    pub status : String
    pub finished_at : Option String
    pub orders_count : Number
    pub trades_count : Number
    pub error_msg : Option String

  pub record DashboardAccount : Type 0 where
    pub account_id : String
    pub client_id : String
    pub display_name : Option String
    pub strategy_capital : Number
    pub broker_net : Number
    pub cash : Number
    pub opening_balance : Number
    pub utilised : Number
    pub realized_pnl : Number
    pub unrealized_pnl : Number
    pub net_pnl : Number
    pub statement_realized_pnl : Number
    pub charges : Number
    pub realized_after_charges : Number
    pub return_pct : Number
    pub closed_trades : Number
    pub win_rate_pct : Number
    pub trade_return_pct : Number
    pub avg_trades_per_day : Number
    pub winning_days : Number
    pub losing_days : Number
    pub avg_trades_on_winning_days : Number
    pub avg_trades_on_losing_days : Number
    pub loss_peak_after_trades : Number
    pub loss_peak_pnl : Number
    pub win_peak_after_days : Number
    pub win_peak_pnl : Number
    pub trade_expectancy : Number
    pub profit_factor : Number
    pub day_outcomes : List DayOutcome
    pub open_exposure : Number
    pub utilization_pct : Number
    pub open_winners : Number
    pub open_losers : Number
    pub concentration_pct : Number
    pub ce_count : Number
    pub pe_count : Number
    pub open_positions_count : Number
    pub open_positions : List PositionRow
    pub holdings_count : Number
    pub holdings_value : Number
    pub holdings_pnl : Number
    pub holdings : List HoldingRow
    pub latest_sync : LatestSync

  pub record Totals : Type 0 where
    pub strategy_capital : Number
    pub broker_net : Number
    pub realized_pnl : Number
    pub realized_after_charges : Number
    pub charges : Number
    pub unrealized_pnl : Number
    pub open_exposure : Number
    pub open_positions : Number
    pub trades_today : Number
    pub orders_today : Number

  pub record DailyRow : Type 0 where
    pub date : String
    pub cashflow : Number
    pub executions : Number
    pub trades : Option Number
    pub wins : Option Number
    pub losses : Option Number
    pub flat : Option Number
    pub win_pct : Option Number
    pub loss_pct : Option Number
    pub flat_pct : Option Number

  pub record Dashboard : Type 0 where
    pub totals : Totals
    pub accounts : List DashboardAccount
    pub daily : List DailyRow
    pub sync_note : String

  pub record AccountState : Type 0 where
    pub accounts : List ZerodhaAccountStatus
    pub dashboard : Option Dashboard
    pub trades : List TradeRow
    pub latest_day_trades : List TradeRow
    pub message : Option String
    pub loading : Bool
