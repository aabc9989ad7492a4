-- ===== src/Stocks/Tests.antt =====
-- Runs of the stock list on concrete pages, and the theorems at inputs that meet their conditions.
use trader_cockpit_app.Prelude.{◌+◌, String, true, false, none, some, List, [], ◌∷◌, ◌≡◌, refl, All}
use trader_cockpit_app.Js.Numbers.{Numbers}
use trader_cockpit_app.Js.Sort.{sort}
use trader_cockpit_app.Js.PlainLocale.{plain_locale}
use trader_cockpit_app.Js.Thousandths.{thousandths, ℤ, pos}
use trader_cockpit_app.Screener.Tests.{raw}
use trader_cockpit_app.Stocks.Sorting.{
  missing, column, StockRow, Comparable, SortedBy, before, sort_stock_rows, sort_stock_rows_lem,
}
use trader_cockpit_app.Stocks.Hook.{
  Page, merge_rows, set_rows, set_row, initial, ListEvent, load_begun, loaded, more_asked,
  more_came, column_clicked, list_events,
}
use trader_cockpit_app.Stocks.Hook.Paging.{
  find_row, latest, or_else, symbols, further, page_length, find_row-merge_rows, offset-received,
}

abbrev N : Numbers
N = thousandths

abbrev stock : String → ℤ → StockRow N
stock symbol price = record { screener = raw symbol price; company_name = none }

abbrev first_page : List (StockRow N)
first_page = stock "TCS" (pos 103000) ∷ stock "INFY" (pos 110000) ∷ []

abbrev second_page : List (StockRow N)
second_page = stock "INFY" (pos 111000) ∷ stock "ACC" (pos 90000) ∷ []

-- A repeated symbol keeps its place and shows the row of the later page.
merged_symbols : symbols N (merge_rows N first_page second_page) ≡ "TCS" ∷ "INFY" ∷ "ACC" ∷ []
unfolding merge_rows set_rows set_row
merged_symbols = refl

sorted_symbols :
    symbols N (sort_stock_rows N plain_locale first_page "current_price" false)
    ≡ "INFY" ∷ "TCS" ∷ []
unfolding sort_stock_rows column before sort
sorted_symbols = refl

comparable : All (Comparable N (column N "current_price")) first_page
unfolding column
comparable = (refl, (refl, tt))

sort_stock_rows_lem_example :
    SortedBy N plain_locale
      (column N "current_price")
      false
      first_page
      (sort_stock_rows N plain_locale first_page "current_price" false)
sort_stock_rows_lem_example =
    sort_stock_rows_lem N plain_locale first_page "current_price" false comparable

find_row-merge_rows_example :
    find_row N "INFY" (merge_rows N first_page second_page)
    ≡ or_else N (latest N "INFY" second_page) (latest N "INFY" first_page)
find_row-merge_rows_example = find_row-merge_rows N "INFY" first_page second_page

abbrev page : List (StockRow N) → Page N
page rows = record { symbols = some rows; has_more = some true; total = none }

abbrev after_load : List (ListEvent N)
after_load =
    more_asked ∷ column_clicked "f52h" ∷ more_came (some (page second_page)) ∷ more_came none ∷ []

offset-received_example :
    let refused = list_events N (load_begun ∷ loaded none ∷ []) (initial N) in
    ((list_events N (loaded (some (page first_page)) ∷ after_load) (initial N)).offset
      ≡ page_length N (page first_page) + further N after_load)
    × ((list_events N (load_begun ∷ after_load) (initial N)).offset ≡ further N after_load)
    × (refused.offset ≡ 0)
    × (refused.rows ≡ (initial N).rows)
    × (refused.has_more ≡ (initial N).has_more)
offset-received_example =
    offset-received N (initial N) (page first_page) after_load (tt, (tt, (tt, (tt, tt))))

-- The column of the change in percent, which no row has, orders nothing.
chg_pct_column : column N "chg_pct" ≡ missing
unfolding column
chg_pct_column = refl
