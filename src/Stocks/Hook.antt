-- ===== src/Stocks/Hook.antt =====
-- The state of `useStockList` in CockpitUI/src/hooks/useStockList.ts. A request is two steps, its
-- start and its answer; the answer is `none` where the fetch or its JSON failed or the status is no
-- success. `totalFromApi` and the offset are natural numbers.
pub mod Paging
use trader_cockpit_app.Prelude.{
  ℕ, ◌+◌, String, ◌==◌, Bool, true, false, not, ◌||◌, Option, none, some, get_or, List, [], ◌∷◌,
  ◌≡◌, length, filter, map, nat_eq, if◌then◌else◌,
}
use trader_cockpit_app.Js.Numbers.{Numbers}
use trader_cockpit_app.Js.Collections.{Object}
use trader_cockpit_app.Js.Text.{Locale, trim}
use trader_cockpit_app.Screener.Rows.{decorate}
use trader_cockpit_app.Screener.Filters.{
  ScreenerPreset, Presets, ScreenerRangeFilter, default_range, keeps,
}
use trader_cockpit_app.Stocks.Sorting.{StockRow, sort_stock_rows}

abbrev pub page_size : ℕ
page_size = 500

unfoldable pub ScreenerPreset-discrete : Discrete ScreenerPreset
ScreenerPreset-discrete = hlevel

abbrev pub flip_if {ℓ} : {A : Type ℓ} → Dec A → Bool → Bool
flip_if (yes e) b = not b
flip_if (no d) b = b

module _ (N : Numbers) where
  pub record StockList : Type 0 where
    pub rows : List (StockRow N)
    pub loading : Bool
    pub has_more : Bool
    pub total_from_api : ℕ
    pub query : String
    pub range : ScreenerRangeFilter N
    pub presets : Presets
    pub fno_only : Bool
    pub sort_col : String
    pub sort_asc : Bool
    pub fetched : Bool
    pub offset : ℕ

  unfoldable pub initial : StockList
  initial = record {
    rows = [];
    loading = false;
    has_more = false;
    total_from_api = 0;
    query = "";
    range = default_range N;
    presets = λ p. false;
    fno_only = false;
    sort_col = "symbol";
    sort_asc = true;
    fetched = false;
    offset = 0;
  }

  -- The body of an answer: `symbols`, `has_more` and `total` may be missing.
  pub record Page : Type 0 where
    pub symbols : Option (List (StockRow N))
    pub has_more : Option Bool
    pub total : Option ℕ

  abbrev pub decorate_row : StockRow N → StockRow N
  decorate_row r = record { screener = decorate N r.screener; company_name = r.company_name }

  -- `decorateRows(d.symbols ?? [])`.
  abbrev pub decorated : Page → List (StockRow N)
  decorated d = map decorate_row (get_or d.symbols [])

  unfoldable pub load_start : StockList → StockList
  load_start s = record s { loading = true; offset = 0 }

  unfoldable pub load_answer : Option Page → StockList → StockList
  load_answer none s = record s { loading = false; fetched = true }
  load_answer (some d) s = record s {
    rows = decorated d;
    has_more = get_or d.has_more false;
    total_from_api = get_or d.total (length (decorated d));
    offset = length (decorated d);
    loading = false;
    fetched = true;
  }

  -- `map.set(row.symbol, row)`: in the place of the entry that is there, or at the end.
  unfoldable pub set_row : StockRow N → List (StockRow N) → List (StockRow N)
  set_row row [] = row ∷ []
  set_row row (r ∷ rs) =
      let rest = set_row row rs in if r.symbol == row.symbol then row ∷ rs else r ∷ rest

  unfoldable pub set_rows : List (StockRow N) → List (StockRow N) → List (StockRow N)
  unfolding set_row
  set_rows [] m = m
  set_rows (row ∷ rows) m = set_rows rows (set_row row m)

  -- The rows by symbol, first those of before, then the page's.
  unfoldable pub merge_rows : List (StockRow N) → List (StockRow N) → List (StockRow N)
  unfolding set_rows
  merge_rows prev page = set_rows page (set_rows prev [])

  -- `loadMore` does nothing during a request or after the last page.
  unfoldable pub load_more_start : StockList → StockList
  load_more_start s = if s.loading || not s.has_more then s else record s { loading = true }

  unfoldable pub load_more_answer : Option Page → StockList → StockList
  load_more_answer none s = record s { loading = false }
  load_more_answer (some d) s = record s {
    rows = merge_rows s.rows (decorated d);
    has_more = get_or d.has_more false;
    total_from_api = get_or d.total (s.offset + length (decorated d));
    offset = s.offset + length (decorated d);
    loading = false;
  }

  unfoldable pub sort_by : String → StockList → StockList
  sort_by col s =
      if s.sort_col == col
      then record s { sort_asc = not s.sort_asc }
      else record s { sort_col = col; sort_asc = col == "symbol" }

  -- Membership flips for the preset and stays for the others.
  unfoldable pub toggle : ScreenerPreset → Presets → Presets
  toggle p P q = flip_if (ScreenerPreset-discrete q p) (P q)

  unfoldable pub toggle_preset : ScreenerPreset → StockList → StockList
  unfolding toggle
  toggle_preset p s = record s { presets = toggle p s.presets }

  unfoldable pub reset_filters : StockList → StockList
  reset_filters s = record s {
    query = "";
    range = default_range N;
    presets = λ p. false;
    fno_only = false;
  }

  -- What happens to the list: the start and the answer of a load, the same of a further page, and
  -- the clicks.
  pub data ListEvent : Type 0 where
    load_begun more_asked reset_clicked : ListEvent
    loaded more_came : Option Page → ListEvent
    column_clicked : String → ListEvent
    preset_clicked : ScreenerPreset → ListEvent

  unfoldable pub list_event : ListEvent → StockList → StockList
  unfolding load_start load_answer load_more_start load_more_answer sort_by toggle_preset
      reset_filters
  list_event load_begun s = load_start s
  list_event (loaded answer) s = load_answer answer s
  list_event more_asked s = load_more_start s
  list_event (more_came answer) s = load_more_answer answer s
  list_event (column_clicked col) s = sort_by col s
  list_event (preset_clicked p) s = toggle_preset p s
  list_event reset_clicked s = reset_filters s

  unfoldable pub list_events : List ListEvent → StockList → StockList
  list_events [] s = s
  list_events (e ∷ es) s = list_events es (list_event e s)

  -- `filteredRows`, with the notes' text by symbol.
  unfoldable pub filtered_rows : Locale → Object String → StockList → List (StockRow N)
  filtered_rows locale notes s =
      let q = locale.to_upper (trim s.query) in
      let shown =
        filter (λ r. keeps N locale q s.range s.presets s.fno_only notes r.screener) s.rows in
      sort_stock_rows N locale shown s.sort_col s.sort_asc

  -- `totalFromApi || rows.length`.
  unfoldable pub total_count : StockList → ℕ
  total_count s = if nat_eq s.total_from_api 0 then length s.rows else s.total_from_api
