-- ===== src/Stocks/Row.antt =====
-- What a row of the stock list shows and the list's scrolling: StockListRow.tsx, StockListTable.tsx,
-- StockListScorePanel.tsx and StockListLevels.tsx of CockpitUI/src/components/stocklist.
use trader_cockpit_app.Prelude.{
  ℕ, String, ◌==◌, Bool, true, false, not, ◌&&◌, Option, none, some, List, [], ◌∷◌, truthy,
  if◌then◌else◌, get_elem?,
}
use trader_cockpit_app.Js.Numbers.{Numbers, nonzero}
use trader_cockpit_app.Js.Format.{Format}
use trader_cockpit_app.Prices.{LivePriceData, or_else}
use trader_cockpit_app.Display.Fmt.{fmt2, fmt_adv}
use trader_cockpit_app.Display.Screener.{
  screener_stage_color, screener_stage_label, screener_pct_color, screener_pct_text,
  screener_f52h_color,
}
use trader_cockpit_app.Stocks.Sorting.{StockRow}

-- A text with its colour.
pub record ColouredText : Type 0 where
  pub text : String
  pub color : String

abbrev pub coloured : String → String → ColouredText
coloured text color = record { text = text; color = color }

module _ (N : Numbers) where
  open N use {Number, lit, sub, mul, div, lt}

  abbrev pub ltp_of_row : Option (LivePriceData N) → Option Number
  ltp_of_row none = none
  ltp_of_row (some d) = d.ltp

  abbrev pub prev_of_row : Option (LivePriceData N) → Option Number
  prev_of_row none = none
  prev_of_row (some d) = d.prev_close

  unfoldable pub shown_row_price : Option (LivePriceData N) → StockRow N → Option Number
  shown_row_price live row = or_else (ltp_of_row live) row.display_price

  unfoldable pub shown_prev : Option (LivePriceData N) → StockRow N → Option Number
  shown_prev live row = or_else (prev_of_row live) row.prev_day_close

  -- `prev && price ? (price - prev) / prev * 100 : null`.
  unfoldable pub row_chg_pct : Option Number → Option Number → Option Number
  row_chg_pct none price = none
  row_chg_pct (some prev) none = none
  row_chg_pct (some prev) (some price) =
      if nonzero N prev && nonzero N price
      then some (mul (div (sub price prev) prev) (lit 100 1))
      else none

  -- `value != null && refPrice ? (value - refPrice) / refPrice * 100 : null`.
  unfoldable pub level_pct : Option Number → Option Number → Option Number
  level_pct none reference = none
  level_pct (some value) none = none
  level_pct (some value) (some reference) =
      if nonzero N reference
      then some (mul (div (sub value reference) reference) (lit 100 1))
      else none

  -- The height assumed of a row.
  abbrev pub is_symbol : Option String → StockRow N → Bool
  is_symbol none row = false
  is_symbol (some s) row = row.symbol == s

  abbrev pub size_of : Option String → Option (StockRow N) → ℕ
  size_of expanded none = 38
  size_of expanded (some row) = if is_symbol expanded row then 240 else 38

  unfoldable pub estimate_size : List (StockRow N) → Option String → ℕ → ℕ
  estimate_size rows expanded index = size_of expanded (get_elem? rows index)

  -- `handleScroll`: whether a further page is asked for.
  unfoldable pub asks_for_more : Bool → Bool → Number → Number → Number → Bool
  asks_for_more loading has_more scroll_height scroll_top client_height =
      not loading && has_more && lt (sub (sub scroll_height scroll_top) client_height) (lit 260 1)

  -- The badges of a row.
  abbrev pub badge_if : Bool → String → List String → List String
  badge_if on label rest = if on then label ∷ rest else rest

  unfoldable pub row_badges : StockRow N → List String
  row_badges row =
      badge_if (truthy row.is_fno) "F&O"
        (badge_if (truthy row.vcp_detected) "VCP" (badge_if (truthy row.rect_breakout) "RBK" []))

module _ {N : Numbers} (F : Format N) where
  open N use {Number}

  -- A percentage or a dash.
  abbrev pub pct_or_dash : Option Number → String
  pct_or_dash none = "—"
  pct_or_dash (some v) = screener_pct_text F (some v) true

  abbrev pub fmt2_or_dash : Option Number → String
  fmt2_or_dash none = "—"
  fmt2_or_dash (some v) = fmt2 F (some v)

  -- The cells after the symbol: stage, change, ATR, ADV and distance from the high.
  unfoldable pub row_cells : Option (LivePriceData N) → StockRow N → List ColouredText
  row_cells live row =
      let chg = row_chg_pct N (shown_prev N live row) (shown_row_price N live row) in
      coloured (screener_stage_label row.stage) (screener_stage_color row.stage)
      ∷ coloured (pct_or_dash chg) (screener_pct_color F chg false)
      ∷ coloured (fmt2_or_dash row.atr_14) "text-dim"
      ∷ coloured (fmt_adv F row.adv_20_cr) "text-dim"
      ∷ coloured (pct_or_dash row.f52h) (screener_f52h_color F row.f52h)
      ∷ []

  -- The overview of an expanded row.
  unfoldable pub overview : StockRow N → List ColouredText
  overview row =
      coloured (screener_stage_label row.stage) (screener_stage_color row.stage)
      ∷ coloured (fmt2_or_dash (or_else row.display_price row.prev_day_close)) "text-fg"
      ∷ coloured (fmt2_or_dash row.atr_14) "text-dim"
      ∷ coloured (fmt_adv F row.adv_20_cr) "text-dim"
      ∷ coloured (pct_or_dash row.f52h) (screener_f52h_color F row.f52h)
      ∷ []

  -- A level with its distance from the price, where there is one.
  abbrev pub level_note : Option Number → Option ColouredText
  level_note none = none
  level_note (some pct) =
      some (coloured (screener_pct_text F (some pct) true) (screener_pct_color F (some pct) false))

  unfoldable pub level_cell : Option Number → Option Number → String × Option ColouredText
  level_cell value reference = (fmt2 F value, level_note (level_pct N value reference))
