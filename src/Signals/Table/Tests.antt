-- ===== src/Signals/Table/Tests.antt =====
-- A run of the signal table, and its theorem at an input that meets its conditions.
use trader_cockpit_app.Prelude.{
  String, false, none, some, List, [], ◌∷◌, ◌≡◌, refl, map, filter, All,
}
use trader_cockpit_app.Js.Numbers.{Numbers}
use trader_cockpit_app.Js.Collections.{empty_object}
use trader_cockpit_app.Js.PlainLocale.{plain_locale}
use trader_cockpit_app.Js.Order.{IsSortOf, IsFinite}
use trader_cockpit_app.Js.Sort.{sort}
use trader_cockpit_app.Js.Text.{trim, trim_start, trim_end}
use trader_cockpit_app.Js.Thousandths.{thousandths, pos}
use trader_cockpit_app.Signals.Types.{Signal}
use trader_cockpit_app.Signals.Tests.{tcs, infy}
use trader_cockpit_app.Signals.Table.{SortState, price, sort_value, matching, sorted_filtered}
use trader_cockpit_app.Signals.Table.Sorting.{
  FiniteFigure, figure_in, is_found, sorted_filtered-IsTable,
}

abbrev N : Numbers
N = thousandths

abbrev no_time : String → N.Number
no_time t = pos 0

abbrev dear : Signal N
dear = record tcs { id = "ACC"; symbol = "ACC"; price = some (pos 9000) }

abbrev unpriced : Signal N
unpriced = record tcs { id = "SBIN"; symbol = "SBIN"; price = none }

abbrev feed : List (Signal N)
feed = unpriced ∷ tcs ∷ dear ∷ infy ∷ []

abbrev by_price : SortState
by_price = record { query = " "; sort_key = some price; sort_asc = false }

table_run :
    map
      (λ (s : Signal N). s.symbol)
      (sorted_filtered N no_time plain_locale by_price empty_object feed)
    ≡ "ACC" ∷ "TCS" ∷ "INFY" ∷ "SBIN" ∷ []
unfolding sorted_filtered matching sort_value sort trim trim_start trim_end
table_run = refl

feed-FiniteFigure :
    All
      (FiniteFigure N no_time price empty_object)
      (filter (is_found N no_time plain_locale " ") feed)
unfolding trim trim_start trim_end
feed-FiniteFigure = (tt, ((refl, refl, refl), ((refl, refl, refl), ((refl, refl, refl), tt))))

sorted_filtered-IsTable_example :
    IsSortOf
      (IsFinite N)
      N.lt
      false
      (figure_in N no_time price empty_object)
      (filter (is_found N no_time plain_locale " ") feed)
      (sorted_filtered N no_time plain_locale by_price empty_object feed)
sorted_filtered-IsTable_example =
    sorted_filtered-IsTable N no_time plain_locale by_price price empty_object feed refl
      feed-FiniteFigure
