-- ===== src/Stocks/View.antt =====
-- The state of the stock list's view, CockpitUI/src/components/stocklist/useStockListState.ts, and
-- its columns, stocklistTypes.ts.
use trader_cockpit_app.Prelude.{
  ℕ, ◌+◌, String, ◌==◌, Bool, true, false, Option, none, some, List, [], ◌∷◌, length, if◌then◌else◌,
}
use trader_cockpit_app.Stocks.Modal.{SymbolModalTab, details}

pub data StockViewMode : Type 0 where
  table card chart : StockViewMode

pub record StockListView : Type 0 where
  pub expanded_symbol : Option String
  pub modal_symbol : Option String
  pub modal_tab : SymbolModalTab
  pub view_mode : StockViewMode
  pub show_presets : Bool

unfoldable pub open_view : StockListView
open_view = record {
  expanded_symbol = none;
  modal_symbol = none;
  modal_tab = details;
  view_mode = table;
  show_presets = false;
}

-- `prev === symbol ? null : symbol`.
abbrev pub other_or_none : Option String → String → Option String
other_or_none none symbol = some symbol
other_or_none (some prev) symbol = if prev == symbol then none else some symbol

unfoldable pub toggle_expand : String → StockListView → StockListView
toggle_expand symbol s = record s { expanded_symbol = other_or_none s.expanded_symbol symbol }

unfoldable pub open_modal : String → Option SymbolModalTab → StockListView → StockListView
open_modal symbol none s = record s { modal_symbol = some symbol; modal_tab = details }
open_modal symbol (some tab) s = record s { modal_symbol = some symbol; modal_tab = tab }

unfoldable pub close_modal : StockListView → StockListView
close_modal s = record s { modal_symbol = none }

pub record ColDef : Type 0 where
  pub key : String
  pub label : String
  pub title : Option String
  pub to_right : Bool

abbrev pub col : String → String → Option String → Bool → ColDef
col key label title to_right = record {
  key = key;
  label = label;
  title = title;
  to_right = to_right;
}

abbrev pub stock_cols : List ColDef
stock_cols =
    col "symbol" "Symbol" none false
    ∷ col "stage" "Stage" none false
    ∷ col "display_price" "Price" none true
    ∷ col "chg_pct" "Chg%" none true
    ∷ col "atr_14" "ATR" (some "ATR(14) in ₹") true
    ∷ col "adv_20_cr" "ADV" (some "20-day avg daily volume (Cr)") true
    ∷ col "f52h" "52H%" (some "% from 52-week high") true
    ∷ col "_actions" "" none true
    ∷ []

abbrev pub col_count : ℕ
col_count = length stock_cols

abbrev pub col_span : ℕ
col_span = col_count + 1
