-- ===== src/Accounts/Views.antt =====
-- What the accounts screen shows of its figures: TradeEdge.tsx, CapitalSummary.tsx, BehaviorPanel.tsx,
-- IndividualDashboard.tsx, SymbolPnL.tsx, PnLCurve.tsx and AccountLoginLink.tsx of
-- CockpitUI/src/components/accounts.
use Prim.Native.String.{slice, ◌++◌ as ◌+++◌}
use trader_cockpit_app.Prelude.{
  ℕ, zero, suc, ◌+◌, String, ◌==◌, Bool, not, ◌&&◌, ◌||◌, Option, none, some, List, [], ◌∷◌, filter,
  length, ltb, truthy, if◌then◌else◌,
}
use trader_cockpit_app.Prelude.Int.{ℤ, at_least_zero}
use trader_cockpit_app.Js.Numbers.{Numbers, zero_n, abs}
use trader_cockpit_app.Js.Format.{Format, Dates}
use trader_cockpit_app.Js.Text.{replace}
use trader_cockpit_app.Charts.{max_n, min_n}
use trader_cockpit_app.Display.Accounts.{money, hold_minutes, fmt_hold, status_class}
use trader_cockpit_app.Accounts.{
  ZerodhaAccountStatus, AccountStatus, connected, expired, not_connected, login_required, error,
  TradeRow, DashboardAccount,
}
use trader_cockpit_app.Accounts.Edge.{
  Tile, sum_pnl, wins, losses, profit_factor, mean_of, pf_color, Stat, CurvePoint, needs_login,
}

abbrev pub status_name : AccountStatus → String
status_name connected = "connected"
status_name expired = "expired"
status_name not_connected = "not_connected"
status_name login_required = "login_required"
status_name error = "error"

-- The link for a login: the label and class of the status, its address where it is shown, and the
-- texts below.
pub record LoginLink : Type 0 where
  pub status_text : String
  pub class_name : String
  pub href : String
  pub shown_url : Option String
  pub expires : Option String
  pub last_error : Option String

-- `text && (...)`.
abbrev pub nonempty : Option String → Option String
nonempty none = none
nonempty (some t) = if t == "" then none else some t

module _ (N : Numbers) where
  open N use {Number, lit, add, sub, mul, div, lt, le, eq}

  abbrev pub expiry_text : Option String → Option String
  expiry_text none = none
  expiry_text (some t) = some (replace (slice t 0 16) "T" " ")

  abbrev pub link_of : Bool → ZerodhaAccountStatus N → LoginLink
  link_of with_url account = record {
    status_text = replace (status_name account.status) "_" " ";
    class_name = status_class (status_name account.status);
    href = account.login_url;
    shown_url = if with_url then some account.login_url else none;
    expires = expiry_text (nonempty account.expires_at);
    last_error = nonempty account.last_error;
  }

  unfoldable pub login_link : Option (ZerodhaAccountStatus N) → Bool → Option LoginLink
  login_link none show_url = none
  login_link (some account) show_url =
      let needed = needs_login N (some account) in
      if not (truthy account.has_credentials) || account.login_url == ""
      then none
      else if not needed && not show_url
      then none
      else some (link_of (show_url || needed) account)

  -- `Math.min(100, Math.max(0, pct))`.
  abbrev pub bar_width : Number → Number
  bar_width pct = min_n N (lit 100 1) (max_n N (zero_n N) pct)

  -- The width and side of a symbol's bar.
  unfoldable pub symbol_bar : Number → Stat N → Bool × Number
  symbol_bar max s = (le (zero_n N) s.pnl, mul (div (abs N s.pnl) max) (lit 100 1))

  unfoldable pub utilization_color : Number → String
  utilization_color pct =
      if lt (lit 80 1) pct
      then "text-bear"
      else if lt (lit 50 1) pct
      then "text-amber"
      else "text-fg"

  -- The account shown on its own: the one selected, or else the first.
  unfoldable pub find_account : String → List (DashboardAccount N) → Option (DashboardAccount N)
  find_account id [] = none
  find_account id (a ∷ others) =
      let rest = find_account id others in if a.account_id == id then some a else rest

  abbrev pub first_account : List (DashboardAccount N) → Option (DashboardAccount N)
  first_account [] = none
  first_account (a ∷ others) = some a

  unfoldable pub selected_account : String → List (DashboardAccount N) → Option (DashboardAccount N)
  selected_account id accounts = elim (find_account id accounts) [
    | none ↦ first_account accounts
    | some a ↦ some a
  ]

  abbrev pub account_trades : DashboardAccount N → List (TradeRow N) → List (TradeRow N)
  account_trades account trades = filter (λ t. t.account_id == account.account_id) trades

module _ {N : Numbers} (F : Format N) (D : Dates N) where
  open N use {Number, lit, add, sub, mul, div, lt, le, eq}

  -- A number of minutes that may be NaN.
  abbrev pub minutes_n : Option ℕ → Number
  minutes_n none = div (zero_n N) (zero_n N)
  minutes_n (some m) = lit m 1

  abbrev pub hold : TradeRow N → Number
  hold t = minutes_n (hold_minutes F D t.entry_time t.exit_time)

  unfoldable pub sum_hold : Number → List (TradeRow N) → Number
  sum_hold s [] = s
  sum_hold s (t ∷ ts) = sum_hold (add s (hold t)) ts

  abbrev pub avg_hold : List (TradeRow N) → Number
  avg_hold trades = mean_of N sum_hold trades

  abbrev pub fast_losses : List (TradeRow N) → ℕ
  fast_losses trades = length (filter (λ t. lt (hold t) (lit 30 1)) (losses N trades))

  abbrev pub holding_losers : List (TradeRow N) → Bool
  holding_losers trades =
      lt (add (avg_hold (wins N trades)) (lit 15 1)) (avg_hold (losses N trades))
      && ltb 2 (length (losses N trades))

  -- `fmtHold(Math.round(v))`.
  abbrev pub rounded_hold : Option ℤ → String
  rounded_hold none = "NaNh"
  rounded_hold (some m) = fmt_hold F (at_least_zero m)

  abbrev pub tile : String → String → String → Tile
  tile label value color = record { label = label; value = value; color = color }

  unfoldable pub edge_tiles : List (TradeRow N) → List Tile
  edge_tiles trades =
      let pf = profit_factor N trades in
      let exp = mean_of N (sum_pnl N) trades in
      tile "Profit Factor" (if eq pf (lit 99 1) then "∞" else F.fixed 2 pf) (pf_color N pf)
      ∷ tile "Expectancy / Trade" (money F (some exp))
          (if le (zero_n N) exp then "text-bull" else "text-bear")
      ∷ tile "Avg Winner Hold" (rounded_hold (F.round (avg_hold (wins N trades)))) "text-fg"
      ∷ tile "Avg Loser Hold" (rounded_hold (F.round (avg_hold (losses N trades))))
          (if holding_losers trades then "text-bear" else "text-fg")
      ∷ []

  unfoldable pub fast_loss_note : ℕ → Option String
  fast_loss_note zero = none
  fast_loss_note (suc n) = some (
      F.shown (lit (suc n) 1)
      +++ (" trade"
          +++ ((if ltb 1 (suc n) then "s" else "")
              +++ " stopped out in <30 min — review entry quality on those setups.")))

  unfoldable pub holding_note : List (TradeRow N) → Option String
  holding_note trades =
      let longer = sub (avg_hold (losses N trades)) (avg_hold (wins N trades)) in
      if holding_losers trades
      then some (
          "Holding losers "
          +++ (rounded_hold (F.round longer) +++ " longer than winners — cut losses faster."))
      else none

  -- The label of a point of the curve, and its tooltip.
  abbrev pub part_of : ℕ → ℕ → String → Option String → String
  part_of a b missing none = missing
  part_of a b missing (some t) = slice t a b

  unfoldable pub curve_label : ℕ → CurvePoint N → String
  curve_label idx p = part_of 5 10 (F.shown (lit (idx + 1) 1)) p.trade.exit_time

  unfoldable pub curve_tooltip : CurvePoint N → String
  curve_tooltip p =
      "<b>"
      +++ (p.trade.symbol
          +++ ("</b><br/>"
              +++ (part_of 0 10 "-" p.trade.exit_time
                  +++ ("<br/>Trade: "
                      +++ (money F (some p.trade.pnl)
                          +++ ("<br/>Cumulative: " +++ money F (some p.running)))))))
