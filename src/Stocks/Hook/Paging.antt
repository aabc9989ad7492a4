-- ===== src/Stocks/Hook/Paging.antt =====
-- Pages of the stock list in CockpitUI/src/hooks/useStockList.ts: the merge by symbol, the guard of
-- `loadMore`, and the filter switches.
use trader_cockpit_app.Prelude.{
  ℕ, ◌+◌, ◌≡◌, refl, ap, ◌∙◌, String, ◌==◌, eq_iff, Bool, true, false, not, ◌||◌, Option, none,
  some, List, [], ◌∷◌, arith, All, length, map, suc, get_or, if_elim, if◌then◌else◌,
}
use mathlib.Core.Path.{fun_ext}
use trader_cockpit_app.Js.Numbers.{Numbers}
use trader_cockpit_app.Js.Collections.{Distinct}
use trader_cockpit_app.Screener.Filters.{ScreenerPreset}
use trader_cockpit_app.Stocks.Sorting.{StockRow}
use trader_cockpit_app.Stocks.Hook.{
  StockList, Page, decorated, decorate_row, set_row, set_rows, merge_rows, load_start, load_answer,
  load_more_start, load_more_answer, sort_by, reset_filters, ListEvent, load_begun, more_asked,
  reset_clicked, loaded, more_came, column_clicked, preset_clicked, list_event, list_events, toggle,
  toggle_preset, flip_if, ScreenerPreset-discrete,
}

flip_if_twice {ℓ} : {A : Type ℓ} (d : Dec A) (b : Bool) → flip_if d (flip_if d b) ≡ b
flip_if_twice (yes e) true = refl
flip_if_twice (yes e) false = refl
flip_if_twice (no d) b = refl

module _ (N : Numbers) where
  -- The row that a map keeps under a symbol.
  pub find_row : String → List (StockRow N) → Option (StockRow N)
  find_row k [] = none
  find_row k (r ∷ rs) = let rest = find_row k rs in if r.symbol == k then some r else rest

  -- The last row of a list with a symbol.
  pub latest : String → List (StockRow N) → Option (StockRow N)
  latest k [] = none
  latest k (r ∷ rs) = elim (latest k rs) [
    | none ↦ if r.symbol == k then some r else none
    | some x ↦ some x
  ]

  abbrev pub or_else : Option (StockRow N) → Option (StockRow N) → Option (StockRow N)
  or_else none o = o
  or_else (some x) o = some x

  find_row-set_row :
      (k : String) (row : StockRow N) (m : List (StockRow N))
      → find_row k (set_row N row m) ≡ (if row.symbol == k then some row else find_row k m)
  unfolding find_row set_row
  find_row-set_row k row [] = refl
  find_row-set_row k row (r ∷ rs) = ground (
    arith,
    eq_iff r.symbol row.symbol,
    eq_iff row.symbol k,
    eq_iff r.symbol k,
    find_row-set_row k row rs,
  )

  find_row-set_rows :
      (k : String) (rows m : List (StockRow N))
      → find_row k (set_rows N rows m) ≡ or_else (latest k rows) (find_row k m)
  unfolding set_rows latest
  find_row-set_rows k [] m = refl
  find_row-set_rows k (r ∷ rs) m =
      ground (arith, find_row-set_rows k rs (set_row N r m), find_row-set_row k r m)

  -- After a further page a symbol shows its last row on that page, or, where the page has none, the
  -- last one from before.
  pub find_row-merge_rows :
      (k : String) (prev page : List (StockRow N))
      → find_row k (merge_rows N prev page) ≡ or_else (latest k page) (latest k prev)
  unfolding merge_rows find_row
  find_row-merge_rows k prev page =
      find_row-set_rows k page (set_rows N prev []) ∙ ground (arith, find_row-set_rows k prev [])

  abbrev pub symbols : List (StockRow N) → List String
  symbols [] = []
  symbols (r ∷ rs) = r.symbol ∷ symbols rs

  apart-set_row :
      (k : String) (row : StockRow N) (m : List (StockRow N))
      → (k == row.symbol) ≡ false
      → All (λ y. (k == y) ≡ false) (symbols m)
      → All (λ y. (k == y) ≡ false) (symbols (set_row N row m))
  unfolding set_row
  apart-set_row k row [] e h = (e, tt)
  apart-set_row k row (r ∷ rs) e h =
      if_elim (λ m. All (λ y. (k == y) ≡ false) (symbols m)) (r.symbol == row.symbol)
        (λ same. (e, h.1)) (λ other. (h.0, apart-set_row k row rs e h.1))

  Distinct-set_row :
      (row : StockRow N) (m : List (StockRow N))
      → Distinct (symbols m)
      → Distinct (symbols (set_row N row m))
  unfolding set_row
  Distinct-set_row row [] d = (tt, tt)
  Distinct-set_row row (r ∷ rs) d =
      if_elim (λ m. Distinct (symbols m)) (r.symbol == row.symbol)
        (λ same.
          let e : r.symbol ≡ row.symbol = (eq_iff r.symbol row.symbol).0 same in (rw e at d.0, d.1))
        (λ other. (apart-set_row r.symbol row rs other d.0, Distinct-set_row row rs d.1))

  Distinct-set_rows :
      (rows m : List (StockRow N)) → Distinct (symbols m) → Distinct (symbols (set_rows N rows m))
  unfolding set_rows
  Distinct-set_rows [] m d = d
  Distinct-set_rows (r ∷ rs) m d = Distinct-set_rows rs (set_row N r m) (Distinct-set_row r m d)

  -- No symbol stands in two rows after a merge, whatever the pages repeat.
  merge_rows-Distinct :
      (prev page : List (StockRow N)) → Distinct (symbols (merge_rows N prev page))
  unfolding merge_rows
  merge_rows-Distinct prev page =
      Distinct-set_rows page (set_rows N prev []) (Distinct-set_rows prev [] tt)

  -- No load starts, and none is answered with rows.
  abbrev pub IsBetweenLoads : ListEvent N → Type 0
  IsBetweenLoads load_begun = ⊥
  IsBetweenLoads (loaded (some d)) = ⊥
  IsBetweenLoads _ = Unit

  -- The rows that a page brings, repeated symbols included.
  abbrev pub page_length : Page N → ℕ
  page_length d = length (get_or d.symbols [])

  -- How many rows further pages brought.
  pub further : List (ListEvent N) → ℕ
  further [] = 0
  further (more_came (some d) ∷ es) = page_length d + further es
  further (_ ∷ es) = further es

  length-decorated : (d : Page N) → length (decorated N d) ≡ page_length d
  length-decorated d = length-map-rows (get_or d.symbols [])
    where
      length-map-rows :
          (rows : List (StockRow N)) → length (map (decorate_row N) rows) ≡ length rows
      length-map-rows [] = refl
      length-map-rows (r ∷ rs) = ap suc (length-map-rows rs)

  offset-load_more_start : (s : StockList N) → (load_more_start N s).offset ≡ s.offset
  unfolding load_more_start
  offset-load_more_start s =
      if_elim (λ (t : StockList N). t.offset ≡ s.offset) (s.loading || not s.has_more) (λ e. refl)
        (λ e. refl)

  offset-sort_by : (col : String) (s : StockList N) → (sort_by N col s).offset ≡ s.offset
  unfolding sort_by
  offset-sort_by col s =
      if_elim (λ (t : StockList N). t.offset ≡ s.offset) (s.sort_col == col) (λ e. refl) (λ e. refl)

  -- One event between loads.
  offset-list_event :
      (e : ListEvent N) (s : StockList N)
      → IsBetweenLoads e
      → (list_event N e s).offset ≡ s.offset + further (e ∷ [])
  unfolding list_event further load_answer load_more_answer toggle_preset reset_filters
  offset-list_event load_begun s b = absurd b
  offset-list_event (loaded none) s b = omega arith
  offset-list_event (loaded (some d)) s b = absurd b
  offset-list_event more_asked s b = omega (arith, offset-load_more_start s)
  offset-list_event (more_came none) s b = omega arith
  offset-list_event (more_came (some d)) s b = omega (arith, length-decorated d)
  offset-list_event (column_clicked col) s b = omega (arith, offset-sort_by col s)
  offset-list_event (preset_clicked p) s b = omega arith
  offset-list_event reset_clicked s b = omega arith

  further-cons :
      (e : ListEvent N) (es : List (ListEvent N)) → further (e ∷ es) ≡ further (e ∷ []) + further es
  unfolding further
  further-cons load_begun es = omega arith
  further-cons (loaded answer) es = omega arith
  further-cons more_asked es = omega arith
  further-cons (more_came none) es = omega arith
  further-cons (more_came (some d)) es = omega arith
  further-cons (column_clicked col) es = omega arith
  further-cons (preset_clicked p) es = omega arith
  further-cons reset_clicked es = omega arith

  offset-list_events :
      (es : List (ListEvent N)) (s : StockList N)
      → All IsBetweenLoads es
      → (list_events N es s).offset ≡ s.offset + further es
  unfolding list_events further
  offset-list_events [] s b = omega arith
  offset-list_events (e ∷ es) s b = omega (
    arith,
    offset-list_events es (list_event N e s) b.1,
    offset-list_event e s b.0,
    further-cons e es,
  )

  -- From any state, and with any events but another load in between: after a load that is answered
  -- with rows the offset of the next request is the number of rows received by it and by the further
  -- pages since, repeated symbols included. After the start of a load that is not answered with rows
  -- it is the number of rows of the further pages since, although the rows from before the load are
  -- still shown.
  pub offset-received :
      (s : StockList N) (d : Page N) (es : List (ListEvent N))
      → All IsBetweenLoads es
      → let refused = list_events N (load_begun ∷ loaded none ∷ []) s in
        ((list_events N (loaded (some d) ∷ es) s).offset ≡ page_length d + further es)
        × ((list_events N (load_begun ∷ es) s).offset ≡ further es)
        × (refused.offset ≡ 0)
        × (refused.rows ≡ s.rows)
        × (refused.has_more ≡ s.has_more)
  unfolding list_events list_event load_start load_answer
  offset-received s d es b = (
    omega (arith, offset-list_events es (load_answer N (some d) s) b, length-decorated d),
    omega (arith, offset-list_events es (load_start N s) b),
    refl,
    refl,
    refl,
  )

  -- Clicking a preset twice gives the presets of before, and the rest of the state is untouched.
  pub toggle_preset_twice :
      (p : ScreenerPreset) (s : StockList N) → toggle_preset N p (toggle_preset N p s) ≡ s
  unfolding toggle_preset toggle
  toggle_preset_twice p s =
      ap (λ P. record s { presets = P })
        (fun_ext (λ q. flip_if_twice (ScreenerPreset-discrete q p) (s.presets q)))
